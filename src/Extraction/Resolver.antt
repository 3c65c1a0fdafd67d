-- ===== src/Extraction/Resolver.antt =====
-- extraction/sender_resolver.py.
mod Defs
pub mod Outcome
unfoldable pub use Defs.*
