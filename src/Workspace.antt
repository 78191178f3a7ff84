-- ===== src/Workspace.antt =====
-- The workspace client of agent-host: its wire protocol, plans and requests.
pub mod Transport
pub mod Planning
pub mod Operations
pub mod Service
pub mod Outbox
pub mod Effects
pub mod Publication
pub mod Plans
pub mod Coordinator
