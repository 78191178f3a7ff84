-- ===== src/Voice/TurnCapture.antt =====
-- turn_capture.py and capture_frame_router.py of agent-host/src/reframe_agent_host/voice: the capture of
-- a single turn, without speculation. The microphone's frames come with the clock and with whether the
-- stop event is set; messages, debug audio and `audio_frame_handler` are left out.
pub mod Routes
pub mod Sound
use reframe_web.Prelude.{
  ℕ, Bool, true, false, not, ◌&&◌, Option, none, some, is_some, List, [], ◌∷◌, if◌then◌else◌,
}
use reframe_web.Voice.Vad.{VoiceActivityDecision}
use reframe_web.Voice.Segmenter.{Segmenter, DetectedUtterance}
use reframe_web.Voice.Mode.{ConversationMode}
use reframe_web.Voice.Capture.{
  CaptureResult, CaptureState, GateResult, PipelineConfig, Spotter, create_state, listen_deadline,
  listen_timed_out, finish_with_utterance, finish_mode_switch, finish_confirmation,
  activation_window_expired, gate_start, gate_accept, accept_speech_frame, replay_wake_audio,
}
use reframe_web.Voice.Session.{CaptureError, interrupted, timed_out, stream_closed}

pub record AudioFrame (Sample : Type 0) : Type 0 where
  pub samples : List Sample
  pub stopped : Bool
  pub now : ℕ

-- The variables of `capture`
pub record TurnCapture (Sample Sp F D : Type 0) : Type 0 where
  pub segmenter : Segmenter Sample F D
  pub state : CaptureState Sample Sp
  pub listen_started_at : ℕ
  pub deadline : Option ℕ

pub data Ended (Sample : Type 0) : Type 0 where
  captured : CaptureResult Sample → Ended Sample
  raised : CaptureError → Ended Sample

pub data Going (Sample Sp F D : Type 0) : Type 0 where
  goes_on : TurnCapture Sample Sp F D → Going Sample Sp F D
  ends : Ended Sample → Going Sample Sp F D

module _ {Sample Sp F D : Type 0} (spotter : Spotter Sample Sp)
    (detect : D → List Sample → D × VoiceActivityDecision F) (config : PipelineConfig F) where
  unfoldable pub finish_utterance :
      TurnCapture Sample Sp F D
      → Option (DetectedUtterance Sample)
      → ℕ
      → Option (CaptureResult Sample)
  finish_utterance c none now = none
  finish_utterance c (some u) now = some (finish_with_utterance c.state u c.listen_started_at now)

  -- `_accept_keyphrase_frame`, on what the gate returned
  unfoldable pub accept_gate_result :
      TurnCapture Sample Sp F D
      → Option (GateResult Sample)
      → ℕ
      → TurnCapture Sample Sp F D × Option (CaptureResult Sample)
  accept_gate_result c none now = (c, none)
  accept_gate_result c (some result) now =
      let (segmenter, state, utterance) =
        replay_wake_audio detect c.segmenter c.state result.frames now in
      let c' = record c { segmenter = segmenter; state = state } in
      if result.conversation_enabled
      then (c, finish_confirmation config result c.state c.listen_started_at now)
      else (c', finish_utterance c' utterance now)

  -- `_accept_keyphrase_frame`
  unfoldable pub accept_keyphrase_frame :
      TurnCapture Sample Sp F D
      → List Sample
      → ℕ
      → TurnCapture Sample Sp F D × Option (CaptureResult Sample)
  accept_keyphrase_frame c frame now =
      let (state, result) = gate_accept spotter config c.state frame c.listen_started_at now in
      accept_gate_result (record c { state = state }) result now

  -- The end of `_accept_utterance_frame`, on the utterance
  unfoldable pub accept_utterance :
      TurnCapture Sample Sp F D
      → Option (DetectedUtterance Sample)
      → ℕ
      → TurnCapture Sample Sp F D × Option (CaptureResult Sample)
  accept_utterance c (some u) now =
      (c, some (finish_with_utterance c.state u c.listen_started_at now))
  accept_utterance c none now = (
    c,
    if activation_window_expired c.state now
        then some (finish_mode_switch c.state c.listen_started_at now)
        else none,
  )

  -- `_accept_utterance_frame`
  unfoldable pub accept_utterance_frame :
      TurnCapture Sample Sp F D
      → List Sample
      → ℕ
      → TurnCapture Sample Sp F D × Option (CaptureResult Sample)
  accept_utterance_frame c frame now =
      let (segmenter, state, utterance) =
        accept_speech_frame detect c.segmenter c.state frame now in
      accept_utterance (record c { segmenter = segmenter; state = state }) utterance now

  -- `accept_frame` of the router
  unfoldable pub accept_frame :
      TurnCapture Sample Sp F D
      → List Sample
      → ℕ
      → TurnCapture Sample Sp F D × Option (CaptureResult Sample)
  accept_frame c frame now =
      if c.state.keyphrase_required && not (is_some c.state.keyphrase_detection)
      then accept_keyphrase_frame c frame now
      else accept_utterance_frame c frame now

  -- The rest of a round, on what the router returned
  unfoldable pub after_frame :
      TurnCapture Sample Sp F D × Option (CaptureResult Sample) → ℕ → Going Sample Sp F D
  after_frame (c, some result) now = ends (captured result)
  after_frame (c, none) now =
      if listen_timed_out c.deadline c.state now then ends (raised timed_out) else goes_on c

  unfoldable pub capture_step : TurnCapture Sample Sp F D → AudioFrame Sample → Going Sample Sp F D
  capture_step c frame =
      if frame.stopped
      then ends (raised interrupted)
      else after_frame (accept_frame c frame.samples frame.now) frame.now

  unfoldable pub capture_frames :
      TurnCapture Sample Sp F D → List (AudioFrame Sample) → Bool → Ended Sample
  capture_frames c [] stopped = raised (if stopped then interrupted else stream_closed)
  capture_frames c (frame ∷ frames) stopped = elim (capture_step c frame) [
    | goes_on c' ↦ capture_frames c' frames stopped
    | ends e ↦ e
  ]

  -- What `capture` sets up, with the segmenter that `create_segmenter` made
  unfoldable pub begin : Segmenter Sample F D → ConversationMode → ℕ → TurnCapture Sample Sp F D
  begin segmenter mode now =
      let state : CaptureState Sample Sp = create_state config mode in
      record {
        segmenter = segmenter;
        state = if state.keyphrase_required then gate_start spotter config state else state;
        listen_started_at = now;
        deadline = listen_deadline config now;
      }

  -- `capture`
  unfoldable pub capture :
      Segmenter Sample F D → ConversationMode → ℕ → List (AudioFrame Sample) → Bool → Ended Sample
  capture segmenter mode now frames stopped =
      capture_frames (begin segmenter mode now) frames stopped
