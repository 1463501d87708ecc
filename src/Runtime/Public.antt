-- ===== src/Runtime/Public.antt =====
-- crates/okx-runtime/src/public/state.rs and crates/okx-runtime/src/public/subscriptions.rs.
pub mod Types
pub mod Subscriptions
pub mod State
pub mod Demands
pub mod Log
pub mod Evidence
pub mod Tests
