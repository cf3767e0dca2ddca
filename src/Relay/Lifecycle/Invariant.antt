-- ===== src/Relay/Lifecycle/Invariant.antt =====
-- What holds of the relay after any events, whatever their order.
mod Table
pub mod Steps
pub mod Runs
