-- ===== src/Execution/Workers.antt =====
-- The set of workers in src/dr_exec/execution/worker_pool.py.
pub mod Slots
pub mod Steps
pub mod Width
pub mod Alive
pub mod Frames
pub mod Served
pub mod Watch
mod Tests
