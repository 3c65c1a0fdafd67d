-- ===== src/Api.antt =====
-- The HTTP routes.
pub mod Internal
pub mod Extractions
pub mod Aliases
pub mod Feedback
pub mod Config
pub mod Statistics
pub mod Users
pub mod WebhookTest
