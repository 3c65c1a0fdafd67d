-- ===== src/Extraction/Content.antt =====
-- extraction/content_preparer.py.
mod Defs
unfoldable pub use Defs.*
