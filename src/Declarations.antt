-- ===== src/Declarations.antt =====
-- src/dr_exec/declarations: what a caller asks for.
pub mod Budgets
pub mod Grants
pub mod Targets
pub mod Validation
pub mod Admission
pub mod Checked
mod Tests
