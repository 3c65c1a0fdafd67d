-- ===== src/Extraction/General/Patterns.antt =====
-- extraction/general_extractor.py: its patterns, each beside the source's.
mod Shapes
mod Labels
unfoldable pub use Shapes.*
unfoldable pub use Labels.*
