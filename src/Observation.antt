-- ===== src/Observation.antt =====
-- crates/okx-observation: what is known of the market and the account.
pub mod OrderBook
pub mod Reference
pub mod Market
pub mod Tests
pub mod Stream
