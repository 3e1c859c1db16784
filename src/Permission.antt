-- ===== src/Permission.antt =====
-- src/modules/permission and src/common/guards/permission.guard.ts: which role may do what, as rows
-- of the database, with a cache in the process.
pub mod Exceptions
pub mod Tables
pub mod Service
mod Tests
