-- ===== src/Speech.antt =====
-- Speech output of agent-host.
pub mod Playback
