-- ===== src/Core.antt =====
-- src/dr_exec/core: the names that every part shares.
pub mod Kinds
pub mod Cancel
