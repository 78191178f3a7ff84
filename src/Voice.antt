-- ===== src/Voice.antt =====
-- The voice pipeline of agent-host: activity detection, segmentation, capture and turns.
pub mod Vad
pub mod Segmenter
pub mod Mode
pub mod TurnControl
pub mod Capture
pub mod Session
pub mod TurnCapture
pub mod BargeIn
pub mod TurnLoop
pub mod TurnProcessor
