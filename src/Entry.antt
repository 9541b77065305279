-- ===== src/Entry.antt =====
-- pages/SignIn.tsx and pages/Register.tsx: the two forms of a visitor.
pub mod SignIn
pub mod Register
mod Arriving
mod Tests
