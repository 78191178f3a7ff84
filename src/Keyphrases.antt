-- ===== src/Keyphrases.antt =====
-- Keyphrase spotting of agent-host.
pub mod Spotter
