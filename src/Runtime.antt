-- ===== src/Runtime.antt =====
-- src/dr_exec/runtime: the protected channel between a Python payload and its executor.
pub mod Protocol
