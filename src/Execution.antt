-- ===== src/Execution.antt =====
-- crates/okx-execution: the rules under which orders are admitted.
pub mod Admission
pub mod Attribution
pub mod Tests
