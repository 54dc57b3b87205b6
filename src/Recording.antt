-- ===== src/Recording.antt =====
-- src/dr_exec/recording: what an execution leaves behind.
pub mod Streams
pub mod Outcomes
pub mod Results
pub mod Stored
pub mod Recorded
pub mod GrantRecords
pub mod Runs
pub mod References
pub mod Store
mod Tests
