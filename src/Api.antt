-- ===== src/Api.antt =====
-- services/frontend/src/app/api: the HTTP client (client.ts) and the calls that the pages make.
pub mod Reply
pub mod Client
pub mod Auth
pub mod Bookings
pub mod Analytics
pub mod Notifications
pub mod Verification
