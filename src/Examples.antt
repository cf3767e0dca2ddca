-- ===== src/Examples.antt =====
-- Concrete runs: a Redis in memory with the laws that the store relies on, and the theorems at
-- inputs where their conditions hold.
mod Memory
mod Sessions
mod Relays
mod Mailboxes
mod Transfers
mod Gates
mod Files
mod Races
mod Peers
