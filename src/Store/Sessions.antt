-- ===== src/Store/Sessions.antt =====
-- What holds of every session, whatever its clients ask for.
pub mod Queues
pub mod Peers
pub mod Identity
