-- ===== src/Services/Privacy.antt =====
-- services/privacy_service.py: deletion on request and retention.
mod Defs
pub mod Schedule
pub mod Purge
pub mod Audit
pub mod Rows
pub mod Drained
unfoldable pub use Defs.*
