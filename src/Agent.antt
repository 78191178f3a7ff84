-- ===== src/Agent.antt =====
-- The agent flow of agent-host.
pub mod LiveConversation
pub mod MemoryGraph
