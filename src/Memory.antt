-- ===== src/Memory.antt =====
-- The memory graph, agent-host/src/reframe_memory: its nodes, and what a turn retrieves of them.
pub mod Nodes
pub mod Terms
pub mod Search
pub mod Context
pub mod Dict
pub mod Retrieval
