-- ===== src/JobAlert.antt =====
-- src/modules/job-alert: saved searches, and the daily digest of new jobs that match them.
pub mod SavedSearches
pub mod Digest
mod Tests
