-- ===== src/Tests/Fixtures.antt =====
-- The inputs that the tests share: samples and loudness are numbers, and two samples are a chunk.
use reframe_web.Prelude.{◌≡◌, refl, ℕ, true, false, none, some, List, [], ◌∷◌, leb}
use reframe_web.Voice.Vad.{
  FloatOps, VoiceActivityConfig, VoiceActivityDecision, EnergyDetector, energy, create_energy,
  round_div, accept_energy,
}
use reframe_web.Voice.Segmenter
use reframe_web.Voice.Segmenter.{Segmenter, DetectedUtterance}
use reframe_web.Voice.Mode.{ConversationMode, wake_command, create_controller}
use reframe_web.Voice.Capture.{
  CaptureResult, PipelineConfig, Spotter, create_state, wake_phrase, KeyphraseDetection,
}
use reframe_web.Voice.Session.{Session, Round}
use reframe_web.Keyphrases.Spotter.{Decoder, PhraseSpotter, spotter}

abbrev pub loudest : List ℕ → ℕ
loudest [] = 0
loudest (x ∷ xs) = x

abbrev pub ops : FloatOps
ops = record { Float = ℕ; le = leb; rms = loudest }

abbrev pub voice_config : VoiceActivityConfig ℕ
voice_config = record {
  sample_rate = 1000;
  chunk_ms = 2;
  detector = energy;
  threshold = 5;
  min_silence_ms = 2;
  final_silence_ms = 4;
  speech_pad_ms = 0;
  pre_speech_ms = 4;
  min_utterance_ms = 2;
  max_utterance_ms = 100;
  energy_start_threshold = 5;
  energy_end_threshold = 2;
  energy_start_ms = 2;
}

abbrev pub silent_detector : EnergyDetector ℕ
silent_detector = record {
  config = voice_config;
  in_speech = false;
  speech_chunks = 0;
  silence_chunks = 0;
  start_chunks = 1;
  end_chunks = 1;
}

create_energy_test : create_energy voice_config ≡ silent_detector
unfolding create_energy round_div
create_energy_test = refl

abbrev pub pipeline : PipelineConfig ℕ
pipeline = record {
  voice_activity = voice_config;
  audio_sample_rate = 1000;
  conversation_on_confirm_window_ms = 10;
  replay_pre_ms = 1;
  carry_ms = 4;
  listen_timeout = 50;
}

-- A decoder that hears nothing.
abbrev pub deaf_decoder : Decoder ℕ (Unit {0})
deaf_decoder = record {
  start = tt;
  process_raw = λ d frame. d;
  hyp = λ d. none;
  matched = λ s. none;
  segment_span = λ d s. none;
  keyword_spotted = λ frames s. none;
}

-- One that hears "jarvis" at once.
abbrev pub keen_decoder : Decoder ℕ (Unit {0})
keen_decoder = record {
  start = tt;
  process_raw = λ d frame. d;
  hyp = λ d. some "jarvis";
  matched = λ s. some (record { kind = wake_phrase; phrase = s; matched_phrase = s });
  segment_span = λ d s. none;
  keyword_spotted = λ frames s. some (some 1, some 3);
}

abbrev pub deaf_spotter : Spotter ℕ (PhraseSpotter ℕ (Unit {0}))
deaf_spotter = spotter deaf_decoder 1 10

abbrev pub TestSession : Type 0
TestSession = Session ℕ (PhraseSpotter ℕ (Unit {0})) ℕ (EnergyDetector ℕ)

abbrev pub fresh_session : ConversationMode → TestSession
fresh_session mode = record {
  conversation_mode = mode;
  mode_version = 0;
  mode_controller = some (create_controller mode);
  turn_id = 0;
  pending_turn_id = none;
  pending_capture = none;
  completed_turns = 0;
  segmenter = Segmenter.create silent_detector voice_config;
  state = create_state pipeline mode;
  deadline = none;
  listen_started_at = 0;
  events = [];
}

abbrev pub round : List ℕ → ℕ → Round ℕ
round frame now = record { frame = frame; stopped = false; modes_set = []; now = now }

-- Speech, a short pause, speech again, and silence until the turn is confirmed.
abbrev pub rounds : List (Round ℕ)
rounds =
    round (9 ∷ 9 ∷ []) 1
    ∷ round (9 ∷ 8 ∷ []) 2
    ∷ round (0 ∷ 0 ∷ []) 3
    ∷ round (9 ∷ 9 ∷ []) 4
    ∷ round (0 ∷ 0 ∷ []) 5
    ∷ round (0 ∷ 0 ∷ []) 6
    ∷ round (0 ∷ 0 ∷ []) 7
    ∷ []

abbrev pub detect : EnergyDetector ℕ → List ℕ → EnergyDetector ℕ × VoiceActivityDecision ℕ
detect d frame = accept_energy ops d frame

abbrev pub said : DetectedUtterance ℕ
said = record { samples = 9 ∷ 8 ∷ []; sample_rate = 1000; forced_end = false }

abbrev pub capture : CaptureResult ℕ
capture = record {
  conversation_mode = wake_command;
  keyphrase_detection = none;
  utterance = some said;
  mode_switched = false;
  keyphrase_wait_seconds = none;
  listen_seconds = 3;
  wait_for_speech_seconds = some 1;
  speech_capture_wall_seconds = none;
}

abbrev pub jarvis : KeyphraseDetection
jarvis = record {
  kind = wake_phrase;
  phrase = "jarvis";
  hypstr = "jarvis";
  confirmed = true;
  phrase_start_sample = some 1;
  phrase_end_sample = some 3;
}
