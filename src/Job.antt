-- ===== src/Job.antt =====
-- src/modules/job: job postings, and the commands that create, change and close them.
pub mod Exceptions
pub mod Entity
pub mod Repository
pub mod Handlers
mod Tests
