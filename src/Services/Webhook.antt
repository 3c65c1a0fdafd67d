-- ===== src/Services/Webhook.antt =====
-- services/webhook_delivery_service.py: the outbox and its delivery.
mod Defs
pub mod Attempts
pub mod Routing
unfoldable pub use Defs.*
