-- ===== src/Api.antt =====
-- crates/okx-api: the client of the exchange.
pub mod Rate
pub mod Clock
pub mod ClockTests
pub mod PublicData
