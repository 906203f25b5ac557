-- ===== src/Notifications/Service.antt =====
-- src/notifications/service.ts: the delivery of a notification to the webhooks and to the email log.
pub mod Total
pub mod Message
pub mod Log
pub mod Webhook
pub mod Notify
pub mod Receiver
pub mod Remembered
pub mod Frame
pub mod Signed
pub mod Silent
