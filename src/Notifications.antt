-- ===== src/Notifications.antt =====
-- pages/Notifications.tsx: the notifications of a user.
pub mod State
pub mod View
pub mod Visiting
mod Tests
