-- ===== src/Session.antt =====
-- services/frontend/src/app/contexts/AuthContext.tsx: who is signed in, and what of it outlives a
-- reload of the page.
pub mod Roles
pub mod Provider
pub mod Coherence
pub mod Reload
pub mod Sample
pub mod Attempt
mod Tests
