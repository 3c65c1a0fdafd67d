-- ===== src/Extraction/Verification.antt =====
-- extraction/verification_detector.py.
mod Defs
pub mod Links
unfoldable pub use Defs.*
