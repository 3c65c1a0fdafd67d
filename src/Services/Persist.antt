-- ===== src/Services/Persist.antt =====
-- services/extraction_service.py: the pipeline's result becomes rows and outbox events.
mod Defs
mod Mapper
pub mod Frame
pub mod Outcome
unfoldable pub use Mapper.*
unfoldable pub use Defs.*
