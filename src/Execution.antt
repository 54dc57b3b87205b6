-- ===== src/Execution.antt =====
-- src/dr_exec/execution: the execution of one job.
pub mod Retention
pub mod Outcomes
pub mod Completions
pub mod Engine
pub mod Workers
mod Tests
