-- ===== src/Cv.antt =====
-- src/modules/cv: the CVs of candidates, each a file in the storage and a row in the database.
pub mod Exceptions
pub mod Entity
pub mod Files
pub mod Tables
pub mod Handlers
mod Tests
