-- ===== src/Voice/Vad.antt =====
-- vad_types.py and vad_energy.py of agent-host/src/reframe_agent_host/voice. Floats are the
-- parameter `FloatOps`, with the comparison and the numpy root mean square that the code calls.
pub mod Hysteresis
use reframe_web.Prelude.{
  ℕ, ◌+◌, ◌*◌, ◌/◌, ◌%◌, Bool, true, false, Option, none, some, List, ltb, max, ◌==◌, if◌then◌else◌,
}

-- Python's `round(a / b)` of two naturals: to the nearest, a half to the even neighbour.
unfoldable pub round_div : ℕ → ℕ → ℕ
round_div a b =
    let q = a / b in
    let r = 2 * (a % b) in
    if ltb r b then q else if ltb b r then q + 1 else if q % 2 == 0 then q else q + 1

-- numpy and Python floats, of which the code uses these.
pub record FloatOps : Type 1 where
  pub Float : Type 0
  pub le : Float → Float → Bool
  pub rms : List Float → Float

pub data VoiceDetectorName : Type 0 where
  auto silero energy : VoiceDetectorName

-- `max_utterance_ms` is the source's `max_utterance_seconds` in milliseconds.
pub record VoiceActivityConfig (F : Type 0) : Type 0 where
  pub sample_rate : ℕ
  pub chunk_ms : ℕ
  pub detector : VoiceDetectorName
  pub threshold : F
  pub min_silence_ms : ℕ
  pub final_silence_ms : ℕ
  pub speech_pad_ms : ℕ
  pub pre_speech_ms : ℕ
  pub min_utterance_ms : ℕ
  pub max_utterance_ms : ℕ
  pub energy_start_threshold : F
  pub energy_end_threshold : F
  pub energy_start_ms : ℕ

pub record VoiceActivityDecision (F : Type 0) : Type 0 where
  pub started : Bool
  pub ended : Bool
  pub is_speech : Bool
  pub speech_probability : Option F

-- `EnergyVoiceActivityDetector`
pub record EnergyDetector (F : Type 0) : Type 0 where
  pub config : VoiceActivityConfig F
  pub in_speech : Bool
  pub speech_chunks : ℕ
  pub silence_chunks : ℕ
  pub start_chunks : ℕ
  pub end_chunks : ℕ

-- `__init__`, for a configuration with a positive `chunk_ms`
unfoldable pub create_energy : {F : Type 0} → VoiceActivityConfig F → EnergyDetector F
unfolding round_div
create_energy config = record {
  config = config;
  in_speech = false;
  speech_chunks = 0;
  silence_chunks = 0;
  start_chunks = max 1 (round_div config.energy_start_ms config.chunk_ms);
  end_chunks = max 1 (round_div config.min_silence_ms config.chunk_ms);
}

module _ (ops : FloatOps) where
  open ops use {Float, le, rms}

  accept_before_start :
      EnergyDetector Float → Float → EnergyDetector Float × VoiceActivityDecision Float
  accept_before_start d level =
      let loud = le d.config.energy_start_threshold level in
      let chunks = if loud then d.speech_chunks + 1 else 0 in
      let d' = record d { speech_chunks = chunks } in
      if ltb chunks d.start_chunks
      then (
        d',
        record {
          started = false;
          ended = false;
          is_speech = false;
          speech_probability = some level;
        },
      )
      else (
        record d' { in_speech = true; silence_chunks = 0 },
        record { started = true; ended = false; is_speech = true; speech_probability = some level },
      )

  accept_after_start :
      EnergyDetector Float → Float → EnergyDetector Float × VoiceActivityDecision Float
  accept_after_start d level =
      let quiet = le level d.config.energy_end_threshold in
      let chunks = if quiet then d.silence_chunks + 1 else 0 in
      let d' = record d { silence_chunks = chunks } in
      if ltb chunks d.end_chunks
      then (
        d',
        record {
          started = false;
          ended = false;
          is_speech = true;
          speech_probability = some level;
        },
      )
      else (
        record d' { in_speech = false; speech_chunks = 0; silence_chunks = 0 },
        record {
          started = false;
          ended = true;
          is_speech = false;
          speech_probability = some level;
        },
      )

  -- `accept`
  unfoldable pub accept_energy :
      EnergyDetector Float → List Float → EnergyDetector Float × VoiceActivityDecision Float
  unfolding accept_before_start accept_after_start
  accept_energy d frame =
      if d.in_speech then accept_after_start d (rms frame) else accept_before_start d (rms frame)
