-- ===== src/BookingService.antt =====
-- services/booking_service: reservations by capacity, the booking saga over two nodes, and the
-- reconciler.
pub mod Store
pub mod Capacity
pub mod Peer
pub mod Saga
pub mod Service
pub mod Routing
pub mod Preview
pub mod Reconciler
mod Bounds
mod Steps
mod Timetable
mod Previewing
mod Serving
pub mod Holding
mod Answers
mod Tracking
mod Compensation
mod Refusal
pub mod Atomic
mod Commitment
mod Confirmation
mod Room
mod Unsettled
mod Availability
mod Foreign
mod Cancellation
mod Passes
mod Sample
mod Tests
mod Incidents
mod Reconciliation
