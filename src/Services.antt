-- ===== src/Services.antt =====
-- backend/app/services.
pub mod Duplicates
pub mod Persist
pub mod Webhook
pub mod Privacy
