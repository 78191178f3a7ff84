-- ===== src/Voice/Capture.antt =====
-- One turn's capture: capture_types.py, capture_state.py, capture_setup.py, capture_results.py,
-- capture_flow.py and keyphrase_gate.py of agent-host/src/reframe_agent_host/voice. Clock readings
-- are ticks; what `on_event` and the debug recorder show is left out, since nothing reads it back.
pub mod Kept
use Prim.Native.String.{String}
use reframe_web.Prelude.{
  ℕ, zero, suc, ◌+◌, ◌-◌, ◌*◌, ◌/◌, Bool, true, false, not, ◌&&◌, Option, none, some, List, [], ◌∷◌,
  ◌++◌, max, leb, ltb, ◌==◌, if◌then◌else◌, length, concat, is_some, is_nil,
}
use reframe_web.Voice.Vad.{VoiceActivityConfig, VoiceActivityDecision, round_div}
use reframe_web.Voice.Segmenter
use reframe_web.Voice.Segmenter.{Segmenter, DetectedUtterance, UtteranceEvent, push_bounded}
use reframe_web.Voice.Mode.{ConversationMode, wake_command, mode_eq}

pub data KeyphraseKind : Type 0 where
  wake_phrase conversation_on : KeyphraseKind

abbrev pub is_conversation_on : KeyphraseKind → Bool
is_conversation_on wake_phrase = false
is_conversation_on conversation_on = true

pub record KeyphraseDetection : Type 0 where
  pub kind : KeyphraseKind
  pub phrase : String
  pub hypstr : String
  pub confirmed : Bool
  pub phrase_start_sample : Option ℕ
  pub phrase_end_sample : Option ℕ

-- A duration is a difference of clock readings, or the length of some audio.
pub data Seconds : Type 0 where
  clock : ℕ → Seconds
  audio : (samples rate : ℕ) → Seconds

pub record CaptureResult (Sample : Type 0) : Type 0 where
  pub conversation_mode : ConversationMode
  pub keyphrase_detection : Option KeyphraseDetection
  pub utterance : Option (DetectedUtterance Sample)
  pub mode_switched : Bool
  pub keyphrase_wait_seconds : Option ℕ
  pub listen_seconds : ℕ
  pub wait_for_speech_seconds : Option ℕ
  pub speech_capture_wall_seconds : Option Seconds

-- The parts of `VoicePipelineConfig` that a capture reads.
pub record PipelineConfig (F : Type 0) : Type 0 where
  pub voice_activity : VoiceActivityConfig F
  pub audio_sample_rate : ℕ
  pub conversation_on_confirm_window_ms : ℕ
  pub replay_pre_ms : ℕ
  pub carry_ms : ℕ
  pub listen_timeout : ℕ

-- The phrase spotter, as the gate uses it.
pub record Spotter (Sample Sp : Type 0) : Type 0 where
  pub create : Sp
  pub append : Sp → List Sample → Sp
  pub detect : Sp → Sp × Option KeyphraseDetection
  pub close : Sp → Sp
  pub confirmation_frames : Sp → KeyphraseDetection → ℕ → List (List Sample)
  pub replay_frames : Sp → KeyphraseDetection → ℕ → List (List Sample)

pub record CaptureState (Sample Sp : Type 0) : Type 0 where
  pub conversation_mode : ConversationMode
  pub keyphrase_required : Bool
  pub carry_frames : List (List Sample)
  pub carry_limit : ℕ
  pub keyphrase_wait_seconds : Option ℕ
  pub keyphrase_detection : Option KeyphraseDetection
  pub keyphrase_spotter : Option Sp
  pub mode_switched : Bool
  pub post_activation_deadline : Option ℕ
  pub speech_started_at : Option ℕ
  pub was_recording : Bool

pub record GateResult (Sample : Type 0) : Type 0 where
  pub detection : KeyphraseDetection
  pub conversation_enabled : Bool
  pub frames : List (List Sample)

-- `listen_deadline`
abbrev pub listen_deadline : {F : Type 0} → PipelineConfig F → ℕ → Option ℕ
listen_deadline config now =
    if config.listen_timeout == 0 then none else some (now + config.listen_timeout)

abbrev pub since : ℕ → Option ℕ → Option ℕ
since earlier none = none
since earlier (some later) = some (later - earlier)

abbrev pub until : ℕ → Option ℕ → Option Seconds
until later none = none
until later (some earlier) = some (clock (later - earlier))

module _ {Sample Sp : Type 0} where
  -- `create_capture_state`, for a positive `chunk_ms`
  unfoldable pub create_state :
      {F : Type 0} → PipelineConfig F → ConversationMode → CaptureState Sample Sp
  unfolding round_div
  create_state config mode = record {
    conversation_mode = mode;
    keyphrase_required = mode_eq mode wake_command;
    carry_frames = [];
    carry_limit = max 1 (round_div config.carry_ms config.voice_activity.chunk_ms);
    keyphrase_wait_seconds = none;
    keyphrase_detection = none;
    keyphrase_spotter = none;
    mode_switched = false;
    post_activation_deadline = none;
    speech_started_at = none;
    was_recording = false;
  }

  -- `close_spotters`; the closed spotter is dropped
  abbrev pub close_spotters : CaptureState Sample Sp → CaptureState Sample Sp
  close_spotters st = record st { keyphrase_spotter = none }

  -- `listen_timed_out`
  unfoldable pub listen_timed_out : Option ℕ → CaptureState Sample Sp → ℕ → Bool
  listen_timed_out none st now = false
  listen_timed_out (some deadline) st now =
      if is_some st.keyphrase_detection
      then false
      else if is_some st.speech_started_at
      then false
      else leb deadline now

  -- `finish_with_utterance_result`
  unfoldable pub finish_with_utterance :
      CaptureState Sample Sp → DetectedUtterance Sample → ℕ → ℕ → CaptureResult Sample
  finish_with_utterance st utterance listen_started_at now = record {
    conversation_mode = st.conversation_mode;
    keyphrase_detection = st.keyphrase_detection;
    utterance = some utterance;
    mode_switched = st.mode_switched;
    keyphrase_wait_seconds = st.keyphrase_wait_seconds;
    listen_seconds = now - listen_started_at;
    wait_for_speech_seconds = since listen_started_at st.speech_started_at;
    speech_capture_wall_seconds = until now st.speech_started_at;
  }

  -- `finish_mode_switch_result`
  unfoldable pub finish_mode_switch : CaptureState Sample Sp → ℕ → ℕ → CaptureResult Sample
  finish_mode_switch st listen_started_at now = record {
    conversation_mode = st.conversation_mode;
    keyphrase_detection = st.keyphrase_detection;
    utterance = none;
    mode_switched = st.mode_switched;
    keyphrase_wait_seconds = st.keyphrase_wait_seconds;
    listen_seconds = now - listen_started_at;
    wait_for_speech_seconds = none;
    speech_capture_wall_seconds = none;
  }

  -- `finish_conversation_mode_confirmation`
  unfoldable pub finish_confirmation :
      {F : Type 0}
      → PipelineConfig F
      → GateResult Sample
      → CaptureState Sample Sp
      → ℕ
      → ℕ
      → Option (CaptureResult Sample)
  finish_confirmation config result st listen_started_at now =
      let samples = concat result.frames in
      if is_nil result.frames
      then none
      else some (record {
        conversation_mode = st.conversation_mode;
        keyphrase_detection = st.keyphrase_detection;
        utterance = some (record {
          samples = samples;
          sample_rate = config.audio_sample_rate;
          forced_end = true;
        });
        mode_switched = false;
        keyphrase_wait_seconds = st.keyphrase_wait_seconds;
        listen_seconds = now - listen_started_at;
        wait_for_speech_seconds = none;
        speech_capture_wall_seconds = some (audio (length samples) config.audio_sample_rate);
      })

  -- `_activation_window_expired`
  unfoldable pub activation_window_expired : CaptureState Sample Sp → ℕ → Bool
  activation_window_expired st now =
      st.mode_switched && (elim st.post_activation_deadline [ none ↦ false | some d ↦ leb d now ])

-- `VoiceKeyphraseGate`
module _ {Sample Sp F : Type 0} (spotter : Spotter Sample Sp) (config : PipelineConfig F) where
  unfoldable pub gate_start : CaptureState Sample Sp → CaptureState Sample Sp
  gate_start st = record st { keyphrase_spotter = some spotter.create }

  unfoldable pub gate_frames : Sp → KeyphraseDetection → List (List Sample)
  gate_frames sp detection =
      if is_conversation_on detection.kind
      then spotter.confirmation_frames sp detection config.conversation_on_confirm_window_ms
      else spotter.replay_frames sp detection config.replay_pre_ms

  unfoldable pub gate_detected :
      CaptureState Sample Sp
      → Sp × Option KeyphraseDetection
      → ℕ
      → ℕ
      → CaptureState Sample Sp × Option (GateResult Sample)
  gate_detected st (sp, none) listen_started_at now =
      (record st { keyphrase_spotter = some sp }, none)
  gate_detected st (sp, some detection) listen_started_at now = (
    record st {
      keyphrase_detection = some detection;
      keyphrase_wait_seconds = some (now - listen_started_at);
      keyphrase_spotter = none;
    },
    some (record {
      detection = detection;
      conversation_enabled = is_conversation_on detection.kind;
      frames = gate_frames sp detection;
    }),
  )

  unfoldable pub gate_listen :
      CaptureState Sample Sp
      → Option Sp
      → List Sample
      → ℕ
      → ℕ
      → CaptureState Sample Sp × Option (GateResult Sample)
  unfolding gate_detected gate_frames
  gate_listen st none frame listen_started_at now = (st, none)
  gate_listen st (some sp) frame listen_started_at now =
      gate_detected st (spotter.detect (spotter.append sp frame)) listen_started_at now

  unfoldable pub gate_accept :
      CaptureState Sample Sp
      → List Sample
      → ℕ
      → ℕ
      → CaptureState Sample Sp × Option (GateResult Sample)
  unfolding gate_listen
  gate_accept st frame listen_started_at now =
      gate_listen (record st { carry_frames = push_bounded st.carry_limit st.carry_frames frame })
        st.keyphrase_spotter frame listen_started_at now

-- `VoiceCaptureFlow` with a segmenter
module _ {Sample Sp F D : Type 0} (detect : D → List Sample → D × VoiceActivityDecision F) where
  -- What both `accept_speech_frame` and `accept_speech_event` record of the segmenter.
  unfoldable pub note_recording : Bool → CaptureState Sample Sp → ℕ → CaptureState Sample Sp
  note_recording is_recording st now =
      let st' =
        if is_recording && not st.was_recording
        then record st { speech_started_at = some now; post_activation_deadline = none }
        else st in
      record st' { was_recording = is_recording }

  unfoldable pub accept_speech_frame :
      Segmenter Sample F D
      → CaptureState Sample Sp
      → List Sample
      → ℕ
      → Segmenter Sample F D × CaptureState Sample Sp × Option (DetectedUtterance Sample)
  accept_speech_frame seg st frame now =
      let (seg', utterance) = Segmenter.accept detect seg frame in
      (seg', note_recording seg'.recording st now, utterance)

  unfoldable pub accept_speech_event :
      Segmenter Sample F D
      → CaptureState Sample Sp
      → List Sample
      → ℕ
      → Segmenter Sample F D × CaptureState Sample Sp × Option (UtteranceEvent Sample)
  accept_speech_event seg st frame now =
      let (seg', event) = Segmenter.accept_event detect seg frame in
      (seg', note_recording seg'.recording st now, event)

  -- The loop of `replay_wake_audio`, up to the first utterance; the carried frames are cleared.
  unfoldable pub replay_wake_audio :
      Segmenter Sample F D
      → CaptureState Sample Sp
      → List (List Sample)
      → ℕ
      → Segmenter Sample F D × CaptureState Sample Sp × Option (DetectedUtterance Sample)
  replay_wake_audio seg st [] now = (seg, record st { carry_frames = [] }, none)
  replay_wake_audio seg st (frame ∷ frames) now =
      let (seg', st', utterance) = accept_speech_frame seg st frame now in
      let rest = replay_wake_audio seg' st' frames now in
      if is_some utterance then (seg', record st' { carry_frames = [] }, utterance) else rest
