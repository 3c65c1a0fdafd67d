-- ===== src/Api/Internal.antt =====
-- api/internal.py: the routes that the Cloudflare Workers call.
mod Defs
pub mod Delivery
pub mod Senderless
pub mod Idempotency
pub mod Uniqueness
pub mod Closed
unfoldable pub use Defs.*
