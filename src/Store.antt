-- ===== src/Store.antt =====
-- internal/transport/session_store.go: the sessions that the mailbox keeps in Redis.
pub mod Lifetime
pub mod Json
pub mod Create
pub mod Modify
pub mod Effects
pub mod Attempt
pub mod Passes
pub mod Operations
pub mod Requests
pub mod Sessions
pub mod Trace
