-- ===== src/Company.antt =====
-- src/modules/company: the companies of recruiters, one per owner at a time.
pub mod Slug
pub mod Tables
pub mod Handlers
mod Tests
