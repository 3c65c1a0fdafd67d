-- ===== src/Extraction/General.antt =====
-- extraction/general_extractor.py: extraction that does not depend on the sender.
pub mod Numerals
pub mod Patterns
mod Defs
pub mod Flags
pub mod Names
unfoldable pub use Defs.*
