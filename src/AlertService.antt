-- ===== src/AlertService.antt =====
-- The alert service, microservices/alert_service/alert_service.py: the consumer of `alert_queue`
-- with its two cooldowns, the photo notification, the voice calls, and the webhook.
pub mod Config
pub mod Http
pub mod Payload
pub mod Callback
pub mod Photo
pub mod Calls
pub mod Webhook
mod Tests
