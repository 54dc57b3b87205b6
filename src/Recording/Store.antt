-- ===== src/Recording/Store.antt =====
-- src/dr_exec/recording/store.py: the lifecycle of a run record in a directory.
pub mod Errors
pub mod Backend
pub mod Reading
pub mod Writing
pub mod Calls
pub mod Laws
pub mod Reads
pub mod Published
pub mod Publishing
pub mod Preparing
pub mod Finalizing
pub mod Elsewhere
pub mod Marking
pub mod Lifecycle
pub mod Advancing
pub mod Loading
pub mod Going
pub mod Keeping
pub mod Guarantees
pub mod Disk
pub mod Samples
mod Tests
