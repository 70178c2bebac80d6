-- ===== src/Store.antt =====
-- crates/db-core/src/store: the result store.
pub mod Ids
pub mod Segment
pub mod Compact
pub mod Faithful
pub mod Reads
pub mod Same
pub mod NoLobs
pub mod Policy
pub mod Result
pub mod Fetch
pub mod Inputs
pub mod Sound
pub mod Settle
pub mod Keeps
pub mod Replies
pub mod Reach
pub mod Live
pub mod Pump
pub mod Final
pub mod Over
pub mod Failed
pub mod Failing
pub mod Lookup
pub mod Stored
pub mod Found
pub mod Find
pub mod Session
pub mod Pending
pub mod Waiting
pub mod Held
