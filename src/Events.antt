-- ===== src/Events.antt =====
-- crates/db-core/src/events.rs: the events of sessions and the queue that carries them.
pub mod Event
pub mod Queue
pub mod Outcome
pub mod Run
pub mod Counting
pub mod Lines
pub mod Tally
pub mod Known
pub mod Pushes
pub mod Bounds
