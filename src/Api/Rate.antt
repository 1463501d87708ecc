-- ===== src/Api/Rate.antt =====
-- crates/okx-api/src/rate.rs: the local rate budget, shared by all requests to the exchange.
pub mod Types
pub mod Plans
pub mod Budget
pub mod Windows
pub mod Spaced
pub mod Sliding
pub mod Trimmed
pub mod Closed
pub mod Throttle
pub mod Blocked
pub mod Retry
pub mod Wait
pub mod Tests
