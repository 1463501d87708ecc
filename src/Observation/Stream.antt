-- ===== src/Observation/Stream.antt =====
-- crates/okx-observation/src/stream.rs: the live view of one market.
pub mod State
pub mod Times
pub mod Readiness
pub mod Current
pub mod Fresh
pub mod Invariant
pub mod Tests
