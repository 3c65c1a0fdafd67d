-- ===== src/Extraction/Scorer.antt =====
-- extraction/confidence_scorer.py: the definitions, and what is proved of them.
mod Defs
pub mod Bounds
unfoldable pub use Defs.*
