-- ===== src/NotificationService.antt =====
-- services/notification_service: what a driver is told of an event, and who may read it.
pub mod Consumer
pub mod Store
mod Tests
mod Telling
pub mod Reading
