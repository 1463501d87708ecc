-- ===== src/Runtime/Private.antt =====
-- crates/okx-runtime/src/private/state.rs, and the subscriptions of
-- crates/okx-ws/src/private_protocol.rs.
pub mod Types
pub mod State
pub mod Journal
pub mod Calls
pub mod Convergence
pub mod Readiness
pub mod Algo
pub mod Protected
