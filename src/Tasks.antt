-- ===== src/Tasks.antt =====
-- The execution of task results by agent-host: its primitives and their payloads.
pub mod Payloads
pub mod Dispatch
