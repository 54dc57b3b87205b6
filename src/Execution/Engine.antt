-- ===== src/Execution/Engine.antt =====
-- src/dr_exec/execution/engine.py: one attempt, from its prepared record to its completion.
pub mod Outcome
pub mod Waiting
pub mod Teardown
pub mod Processes
pub mod Records
pub mod Attempt
pub mod Receipts
pub mod Completing
pub mod Attempted
pub mod Tidy
pub mod Directory
mod Tests
