-- ===== src/Chat/Tests.antt =====
-- Runs of the chat module on concrete data, and the theorems at them.
mod Limits
mod Messages
