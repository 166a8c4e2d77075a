-- ===== src/Queue.antt =====
-- crates/metadata/src/queue_service.rs: the playback queue, one module for each group of methods.
-- `State` has the fields of `QueueService`, its constructor and the helpers that the others call.
pub mod Mode
pub mod State
pub mod Navigate
pub mod Edit
pub mod Reorder
pub mod Pages
pub mod Reachable
