-- ===== src/Api/Feedback.antt =====
-- api/v1/feedback.py: the categories that users confirm, and the rules learned from them.
mod Defs
pub mod Learning
unfoldable pub use Defs.*
