-- ===== src/Notifications.antt =====
-- src/notifications: what is told to NGOs and to configured webhooks.
pub mod ContactVerification
pub mod Service
