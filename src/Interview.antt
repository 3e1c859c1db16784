-- ===== src/Interview.antt =====
-- src/modules/interview: interviews of job applications, and the handlers that schedule, move and
-- close them.
pub mod Exceptions
pub mod Entity
pub mod Repository
pub mod Handlers
mod Tests
