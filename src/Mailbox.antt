-- ===== src/Mailbox.antt =====
-- The mailbox's data: identifiers, capabilities, messages, and the client's phase-aware receiver.
pub mod SessionId
pub mod Capability
pub mod Message
pub mod Delivery
pub mod Progress
