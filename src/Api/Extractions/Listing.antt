-- ===== src/Api/Extractions/Listing.antt =====
-- api/v1/extractions.py, GET "".
mod Defs
mod Order
pub mod Pages
unfoldable pub use Defs.*
