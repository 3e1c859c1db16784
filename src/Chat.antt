-- ===== src/Chat.antt =====
-- src/modules/chat: conversations between a candidate and a recruiter, their messages, and what the
-- gateway of the sockets keeps in memory.
pub mod RateLimiter
pub mod Presence
pub mod Exceptions
pub mod Entity
pub mod Repository
pub mod Handlers
pub mod Gateway
mod Tests
