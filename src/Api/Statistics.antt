-- ===== src/Api/Statistics.antt =====
-- api/v1/feedback.py, GET /stats/extraction.
mod Defs
mod Senders
mod Ranking
mod Groups
pub mod Tallies
unfoldable pub use Defs.*
