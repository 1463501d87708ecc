-- ===== src/Observation/Market.antt =====
-- crates/okx-observation/src/market.rs: the snapshot of one market.
pub mod Types
pub mod Snapshot
