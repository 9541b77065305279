-- ===== src/VerificationService.antt =====
-- services/verification_service: which vehicle has a journey at the moment, by a cache in front of the
-- bookings.
pub mod Cache
pub mod Lookup
pub mod Consumer
pub mod Routes
mod Verdicts
mod Checks
mod Gathering
pub mod Calls
mod Warming
mod Tests
