-- ===== src/Voice/TurnCapture/Sound.antt =====
-- What a capture of a single turn returns.
use reframe_web.Prelude.{
  ℕ, ◌≡◌, refl, ap, Bool, true, false, not, ◌&&◌, Option, none, some, is_some, List, [], ◌∷◌,
  if_ind, is_nil, leb,
}
use reframe_web.Voice.Vad.{VoiceActivityDecision}
use reframe_web.Voice.Segmenter
use reframe_web.Voice.Segmenter.{Segmenter, DetectedUtterance, push_bounded}
use reframe_web.Voice.Mode.{ConversationMode, wake_command, mode_eq}
use reframe_web.Voice.Capture.{
  CaptureResult, CaptureState, GateResult, PipelineConfig, Spotter, create_state, listen_timed_out,
  finish_with_utterance, finish_mode_switch, finish_confirmation, note_recording,
  activation_window_expired, gate_start, gate_accept, accept_speech_frame, replay_wake_audio,
}
use reframe_web.Voice.Session.{interrupted, timed_out}
use reframe_web.Voice.TurnCapture.{
  AudioFrame, TurnCapture, raised, Going, goes_on, ends, finish_utterance, accept_gate_result,
  accept_keyphrase_frame, accept_utterance, accept_utterance_frame, accept_frame, after_frame,
  capture_step, capture_frames, begin, capture,
}
use reframe_web.Voice.TurnCapture.Routes.{
  Same, IsFaithful, Heard, Same-IsFaithful, Same-Heard, IsCaptured, Returned, Sound, and_lem,
  heard_lem, Gated, gate_accept_lem, note_recording-Same, replay_wake_audio-Same,
}

module _ {Sample Sp F D : Type 0} (spotter : Spotter Sample Sp)
    (detect : D → List Sample → D × VoiceActivityDecision F) (config : PipelineConfig F) where
  -- A state that the capture keeps, and a result that it may return
  record IsRouted (mode : ConversationMode)
      (x : TurnCapture Sample Sp F D × Option (CaptureResult Sample)) : Type 0 where
    state : IsFaithful mode x.0.state
    result : Returned mode x.1

  utterance_lem :
      (mode : ConversationMode) (c : TurnCapture Sample Sp F D) (u : DetectedUtterance Sample)
      (now : ℕ)
      → IsFaithful mode c.state
      → Heard c.state
      → IsCaptured mode (finish_with_utterance c.state u c.listen_started_at now)
  unfolding finish_with_utterance Heard
  utterance_lem mode c u now v h = record {
    same_mode = v.same_mode;
    has_utterance = refl;
    not_switched = v.not_switched;
    heard = λ e. h (v.required e);
  }

  finish_utterance_lem :
      (mode : ConversationMode) (c : TurnCapture Sample Sp F D)
      (u : Option (DetectedUtterance Sample)) (now : ℕ)
      → IsFaithful mode c.state
      → Heard c.state
      → Returned mode (finish_utterance spotter detect config c u now)
  unfolding finish_utterance
  finish_utterance_lem mode c none now v h = tt
  finish_utterance_lem mode c (some u) now v h = utterance_lem mode c u now v h

  confirmation_lem :
      (mode : ConversationMode) (c : TurnCapture Sample Sp F D) (result : GateResult Sample)
      (now : ℕ)
      → IsFaithful mode c.state
      → is_some c.state.keyphrase_detection ≡ true
      → Returned mode (finish_confirmation config result c.state c.listen_started_at now)
  unfolding finish_confirmation
  confirmation_lem mode c result now v h =
      if_ind (Returned mode) (is_nil result.frames) none _ (λ _. tt)
        (λ _. record {
          same_mode = v.same_mode;
          has_utterance = refl;
          not_switched = refl;
          heard = λ _. h;
        })

  gate_result_lem :
      (mode : ConversationMode) (c : TurnCapture Sample Sp F D)
      (gated : CaptureState Sample Sp × Option (GateResult Sample)) (now : ℕ)
      → Gated spotter config mode gated
      → IsRouted mode
          (accept_gate_result spotter detect config (record c { state = gated.0 }) gated.1 now)
  unfolding accept_gate_result Heard
  gate_result_lem mode c (st, none) now v = record { state = v; result = tt }
  gate_result_lem mode c (st, some result) now (v, h) =
      let c0 : TurnCapture Sample Sp F D = record c { state = st } in
      let replayed : Segmenter Sample F D
          × CaptureState Sample Sp
          × Option (DetectedUtterance Sample) =
        replay_wake_audio detect c.segmenter st result.frames now in
      let c1 : TurnCapture Sample Sp F D = record c0 {
        segmenter = replayed.0;
        state = replayed.1;
      } in
      let same : Same st replayed.1 =
        replay_wake_audio-Same detect c.segmenter st result.frames now in
      let v1 : IsFaithful mode replayed.1 = Same-IsFaithful mode st replayed.1 same v in
      let h1 : Heard replayed.1 = Same-Heard st replayed.1 same (λ _. h) in
      if_ind (IsRouted mode) result.conversation_enabled
        (c0, finish_confirmation config result st c.listen_started_at now)
        (c1, finish_utterance spotter detect config c1 replayed.2 now)
        (λ _. record { state = v; result = confirmation_lem mode c0 result now v h })
        (λ _. record { state = v1; result = finish_utterance_lem mode c1 replayed.2 now v1 h1 })

  accept_utterance_lem :
      (mode : ConversationMode) (c : TurnCapture Sample Sp F D)
      (u : Option (DetectedUtterance Sample)) (now : ℕ)
      → IsFaithful mode c.state
      → Heard c.state
      → IsRouted mode (accept_utterance spotter detect config c u now)
  unfolding accept_utterance activation_window_expired
  accept_utterance_lem mode c (some u) now v h = record {
    state = v;
    result = utterance_lem mode c u now v h;
  }
  accept_utterance_lem mode c none now v h = record {
    state = v;
    result =
        let expired : Bool =
          c.state.mode_switched
          && (elim c.state.post_activation_deadline [ none ↦ false | some d ↦ leb d now ]) in
        if_ind (Returned mode) expired (some (finish_mode_switch c.state c.listen_started_at now))
          none (λ e. absurd (and_lem c.state.mode_switched _ e v.not_switched)) (λ _. tt);
  }

  frame_lem :
      (mode : ConversationMode) (c : TurnCapture Sample Sp F D) (frame : List Sample) (now : ℕ)
      → IsFaithful mode c.state
      → IsRouted mode (accept_frame spotter detect config c frame now)
  unfolding accept_frame accept_keyphrase_frame accept_utterance_frame accept_speech_frame Heard
  frame_lem mode c frame now v =
      let seg : Segmenter Sample F D = (Segmenter.accept detect c.segmenter frame).0 in
      let st : CaptureState Sample Sp = note_recording detect seg.recording c.state now in
      let same : Same c.state st = note_recording-Same detect seg.recording c.state now in
      if_ind (IsRouted mode)
        (c.state.keyphrase_required && not (is_some c.state.keyphrase_detection)) _ _
        (λ _.
          gate_result_lem mode c (gate_accept spotter config c.state frame c.listen_started_at now)
            now (gate_accept_lem spotter config mode c.state frame c.listen_started_at now v))
        (λ e.
          accept_utterance_lem mode (record c { segmenter = seg; state = st })
            (Segmenter.accept detect c.segmenter frame).1 now
            (Same-IsFaithful mode c.state st same v)
            (Same-Heard c.state st same (λ r.
              heard_lem c.state.keyphrase_required (is_some c.state.keyphrase_detection) e r)))

  abbrev GoesWell : ConversationMode → Going Sample Sp F D → Type 0
  GoesWell mode (goes_on c) = IsFaithful mode c.state
  GoesWell mode (ends e) = Sound mode e

  after_frame_lem :
      (mode : ConversationMode) (x : TurnCapture Sample Sp F D × Option (CaptureResult Sample))
      (now : ℕ)
      → IsRouted mode x
      → GoesWell mode (after_frame spotter detect config x now)
  unfolding after_frame
  after_frame_lem mode (c, some r) now v = v.result
  after_frame_lem mode (c, none) now v =
      if_ind (GoesWell mode) (listen_timed_out c.deadline c.state now) (ends (raised timed_out))
        (goes_on c) (λ _. tt) (λ _. v.state)

  step_lem :
      (mode : ConversationMode) (c : TurnCapture Sample Sp F D) (frame : AudioFrame Sample)
      → IsFaithful mode c.state
      → GoesWell mode (capture_step spotter detect config c frame)
  unfolding capture_step
  step_lem mode c frame v =
      if_ind (GoesWell mode) frame.stopped (ends (raised interrupted)) _ (λ _. tt)
        (λ _.
          after_frame_lem mode (accept_frame spotter detect config c frame.samples frame.now)
            frame.now (frame_lem mode c frame.samples frame.now v))

  run_lem :
      (mode : ConversationMode) (going : Going Sample Sp F D) (frames : List (AudioFrame Sample))
      (stopped : Bool)
      → GoesWell mode going
      → ((c : TurnCapture Sample Sp F D)
          → IsFaithful mode c.state
          → Sound mode (capture_frames spotter detect config c frames stopped))
      → Sound mode (elim going [
        | goes_on c' ↦ capture_frames spotter detect config c' frames stopped
        | ends e ↦ e
      ])
  run_lem mode (goes_on c) frames stopped g k = k c g
  run_lem mode (ends e) frames stopped g k = g

  frames_lem :
      (mode : ConversationMode) (c : TurnCapture Sample Sp F D) (frames : List (AudioFrame Sample))
      (stopped : Bool)
      → IsFaithful mode c.state
      → Sound mode (capture_frames spotter detect config c frames stopped)
  unfolding capture_frames
  frames_lem mode c [] stopped v = tt
  frames_lem mode c (frame ∷ frames) stopped v =
      run_lem mode (capture_step spotter detect config c frame) frames stopped
        (step_lem mode c frame v) (λ c' v'. frames_lem mode c' frames stopped v')

  -- Whatever the microphone, the spotter and the detector give: if a capture of a single turn returns a
  -- result, it has an utterance and the mode that the capture was started in; it is no mode switch;
  -- and in the wake-command mode a keyphrase was detected.
  pub capture-Sound :
      (segmenter : Segmenter Sample F D) (mode : ConversationMode) (now : ℕ)
      (frames : List (AudioFrame Sample)) (stopped : Bool)
      → Sound mode (capture spotter detect config segmenter mode now frames stopped)
  unfolding capture begin create_state gate_start
  capture-Sound segmenter mode now frames stopped =
      let st : CaptureState Sample Sp = create_state config mode in
      let c : TurnCapture Sample Sp F D = begin spotter detect config segmenter mode now in
      frames_lem mode c frames stopped (
        if_ind (λ (x : CaptureState Sample Sp). IsFaithful mode x) (mode_eq mode wake_command)
          (gate_start spotter config st) st
          (λ e. record { same_mode = refl; not_switched = refl; required = λ _. e })
          (λ _. record {
            same_mode = refl;
            not_switched = refl;
            required = λ e. ap (λ m. mode_eq m wake_command) e;
          }))
