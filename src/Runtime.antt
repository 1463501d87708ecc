-- ===== src/Runtime.antt =====
-- crates/okx-runtime: the state that the websocket coordinators keep.
pub mod Private
pub mod Public
pub mod Tests
