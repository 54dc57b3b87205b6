-- ===== src/Scheduling/Scheduler.antt =====
-- src/dr_exec/scheduling/scheduler.py: `ExecutionScheduler` and its worker threads.
pub mod State
pub mod Intake
pub mod Delivery
pub mod Work
pub mod System
pub mod Released
pub mod Cases
pub mod Bounds
pub mod Ledger
pub mod Order
pub mod Tokens
pub mod Cancellation
pub mod Marked
pub mod Expiry
pub mod Guarantees
mod Tests
