-- ===== src/Auth.antt =====
-- src/modules/auth: passwords, one-time codes, and the sessions that refresh tokens stand for.
pub mod Exceptions
pub mod Database
pub mod Service
pub mod Lockout
pub mod Login
mod Tests
