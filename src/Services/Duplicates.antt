-- ===== src/Services/Duplicates.antt =====
-- services/duplicate_service.py: exact-fingerprint duplicates are flagged, never suppressed.
mod Defs
pub mod Laws
unfoldable pub use Defs.*
