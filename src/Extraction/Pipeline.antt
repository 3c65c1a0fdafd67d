-- ===== src/Extraction/Pipeline.antt =====
-- extraction/pipeline.py.
mod Senders
mod Defs
pub mod Outcome
unfoldable pub use Senders.*
unfoldable pub use Defs.*
