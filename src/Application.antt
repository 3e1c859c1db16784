-- ===== src/Application.antt =====
-- src/modules/application: job applications, their pipeline of statuses, and the handlers that
-- create, move and withdraw them.
pub mod Status
pub mod Exceptions
pub mod Entity
pub mod Repository
pub mod Handlers
mod Tests
