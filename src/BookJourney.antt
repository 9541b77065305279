-- ===== src/BookJourney.antt =====
-- services/frontend/src/app/pages/BookJourney.tsx: choosing two points and a time, the route check
-- that follows each choice, and the request of a booking.
pub mod Waypoints
pub mod State
pub mod Select
pub mod Check
pub mod Submit
pub mod Page
pub mod View
pub mod Selection
pub mod Freshness
pub mod Requests
pub mod Hanging
pub mod Errors
mod Tests
