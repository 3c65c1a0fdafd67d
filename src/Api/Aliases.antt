-- ===== src/Api/Aliases.antt =====
-- api/v1/aliases.py: the aliases of a user.
mod Defs
pub mod Entrance
unfoldable pub use Defs.*
