-- ===== src/Api/Config.antt =====
-- api/v1/config.py and security/api_key.py.
mod Defs
pub mod Receivers
pub mod Keys
unfoldable pub use Defs.*
