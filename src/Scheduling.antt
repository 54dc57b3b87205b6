-- ===== src/Scheduling.antt =====
-- src/dr_exec/scheduling: many jobs under one bound.
pub mod Scheduler
