-- ===== src/Notifications.antt =====
-- App/modules/notifications.
pub mod Events
pub mod Consumer
