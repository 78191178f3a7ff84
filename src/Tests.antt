-- ===== src/Tests.antt =====
-- Runs of the model on small inputs.
mod Fixtures
mod Voice
mod Turns
mod Workspace
mod Coordinator
mod Audio
mod Memory
mod Tasks
mod Agent
mod Captures
