-- ===== src/Observation/OrderBook.antt =====
-- crates/okx-observation/src/order_book.rs: the order book of one instrument, kept from a snapshot
-- and the updates that follow it.
pub mod Defs
pub mod Sides
pub mod Levels
pub mod Linkage
pub mod Replay
