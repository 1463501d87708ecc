-- ===== src/Kernel.antt =====
-- crates/okx-kernel: pure calculations without storage, transport or venue.
pub mod TimeSeries
pub mod Tests
