-- ===== src/AnalyticsService.antt =====
-- services/analytics_service: the events of the bookings counted, and the load of the roads.
pub mod Events
pub mod Reports
pub mod Load
mod Tests
mod Counts
mod Measured
