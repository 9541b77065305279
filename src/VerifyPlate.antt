-- ===== src/VerifyPlate.antt =====
-- pages/VerifyPlate.tsx: the page on which an enforcement agent looks up a plate.
pub mod State
pub mod View
mod History
mod Tests
