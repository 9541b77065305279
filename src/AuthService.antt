-- ===== src/AuthService.antt =====
-- services/auth_service: the accounts of two nodes, which a lock on the email and a replica of the
-- peer's accounts keep apart.
pub mod Password
pub mod Accounts
pub mod Register
pub mod Login
pub mod Replication
mod Cut
mod Claiming
mod Registering
mod SigningIn
mod Mirroring
mod Cluster
mod Apart
mod Lasting
mod Blocked
mod Tests
