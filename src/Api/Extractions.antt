-- ===== src/Api/Extractions.antt =====
-- api/v1/extractions.py: the review of extractions.
mod Defs
pub mod Announced
pub mod Lifecycle
pub mod Review
pub mod Listing
unfoldable pub use Defs.*
