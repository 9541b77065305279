-- ===== src/Navigation.antt =====
-- routes.tsx, Root.tsx and components/Navbar.tsx of services/frontend/src/app: which page a path
-- shows to whom, and which links the bar offers. react-router is a package: what it finds for a
-- path is a parameter.
pub mod Routes
pub mod Guard
pub mod Bar
pub mod Settling
pub mod Links
pub mod Sample
mod Tests
