-- ===== src/Agent.antt =====
-- crates/okx-agent: the agent that serves the tools.
pub mod Budget
pub mod Cursor
pub mod Tests
