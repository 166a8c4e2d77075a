-- ===== src/Sync.antt =====
-- crates/sync: several players that play the same music in step.
pub mod Protocol
pub mod Clock
pub mod Tee
pub mod Sink
pub mod Leader
