-- ===== src/Gateway.antt =====
-- services/api_gateway: how many requests of an address pass, and which service answers them.
pub mod RateLimiter
pub mod Proxy
mod Window
mod Reaching
mod Tests
