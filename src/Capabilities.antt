-- ===== src/Capabilities.antt =====
-- src/dr_exec/capabilities: what stands in for an executor.
pub mod Fake
pub mod Scripted
mod Tests
