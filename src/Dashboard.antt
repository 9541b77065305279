-- ===== src/Dashboard.antt =====
-- pages/Dashboard.tsx: the admin's page on events, usage and segments.
pub mod State
pub mod View
mod Ranking
mod Loading
mod Tests
