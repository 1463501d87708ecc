-- ===== src/Protocol.antt =====
-- crates/okx-protocol: the messages between the tools and the agent.
pub mod Analytics
