-- ===== src/User.antt =====
-- src/modules/user: accounts, as an administrator and their owner change them.
pub mod Exceptions
pub mod Tables
pub mod Handlers
mod Tests
