-- ===== src/Auth.antt =====
-- Authentication: src/auth.
pub mod AbuseGuard
pub mod Accounts
pub mod Directory
pub mod Local
pub mod Session
pub mod Mfa
