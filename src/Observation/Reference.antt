-- ===== src/Observation/Reference.antt =====
-- crates/okx-observation/src/reference.rs: the registry of the instruments.
pub mod Types
pub mod Normalize
pub mod Registry
pub mod Loaded
pub mod Updates
pub mod Tests
