-- ===== src/Common.antt =====
-- Code of src/common: the exceptions of the domain, the filter that turns what a handler throws
-- into an HTTP response, and the helpers that several modules call.
pub mod Database
pub mod Exceptions
pub mod Filter
pub mod Tables
pub mod Text
mod Tests
