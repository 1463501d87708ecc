-- ===== src/Agent/Cursor.antt =====
-- crates/okx-agent/src/analytics/cursor.rs: the signed cursors of research results.
pub mod Bytes
pub mod Texts
pub mod Defs
pub mod Signed
pub mod Tests
