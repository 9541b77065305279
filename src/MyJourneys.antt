-- ===== src/MyJourneys.antt =====
-- pages/MyJourneys.tsx: the page on which a driver reads and cancels bookings.
pub mod State
pub mod View
mod Counting
mod Loading
mod Ordering
mod Tests
