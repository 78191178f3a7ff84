-- ===== src/Voice/TurnCapture/Routes.antt =====
-- What each route of a frame through agent-host/src/reframe_agent_host/voice/capture_frame_router.py
-- leaves of the state.
use reframe_web.Prelude.{
  ℕ, ◌≡◌, refl, sym, ap, ◌∙◌, Bool, true, false, not, ◌&&◌, Option, none, some, is_some, List, [],
  ◌∷◌, if_ind,
}
use reframe_web.Voice.Vad.{VoiceActivityDecision}
use reframe_web.Voice.Segmenter
use reframe_web.Voice.Segmenter.{Segmenter, DetectedUtterance, push_bounded}
use reframe_web.Voice.Mode.{ConversationMode, wake_command}
use reframe_web.Voice.Capture.{
  CaptureResult, CaptureState, GateResult, KeyphraseDetection, PipelineConfig, Spotter,
  note_recording, gate_accept, gate_listen, gate_detected, accept_speech_frame, replay_wake_audio,
}
use reframe_web.Voice.TurnCapture.{Ended, captured, raised}

module _ {Sample Sp : Type 0} where
  pub record Same (st st' : CaptureState Sample Sp) : Type 0 where
    mode : st'.conversation_mode ≡ st.conversation_mode
    switched : st'.mode_switched ≡ st.mode_switched
    pub required : st'.keyphrase_required ≡ st.keyphrase_required
    detection : st'.keyphrase_detection ≡ st.keyphrase_detection

  pub Same-refl : (st : CaptureState Sample Sp) → Same st st
  Same-refl st = record { mode = refl; switched = refl; required = refl; detection = refl }

  pub Same-trans : (a b c : CaptureState Sample Sp) → Same a b → Same b c → Same a c
  Same-trans a b c x y = record {
    mode = y.mode ∙ x.mode;
    switched = y.switched ∙ x.switched;
    required = y.required ∙ x.required;
    detection = y.detection ∙ x.detection;
  }

  -- A state of the capture in this mode, which has not been switched
  pub record IsFaithful (mode : ConversationMode) (st : CaptureState Sample Sp) : Type 0 where
    pub same_mode : st.conversation_mode ≡ mode
    pub not_switched : st.mode_switched ≡ false
    pub required : mode ≡ wake_command → st.keyphrase_required ≡ true

  unfoldable pub Heard : CaptureState Sample Sp → Type 0
  Heard st = st.keyphrase_required ≡ true → is_some st.keyphrase_detection ≡ true

  pub Same-IsFaithful :
      (mode : ConversationMode) (st st' : CaptureState Sample Sp)
      → Same st st'
      → IsFaithful mode st
      → IsFaithful mode st'
  Same-IsFaithful mode st st' x v = record {
    same_mode = x.mode ∙ v.same_mode;
    not_switched = x.switched ∙ v.not_switched;
    required = λ e. x.required ∙ v.required e;
  }

  pub Same-Heard : (st st' : CaptureState Sample Sp) → Same st st' → Heard st → Heard st'
  unfolding Heard
  Same-Heard st st' x h e = ap is_some x.detection ∙ h (sym x.required ∙ e)

-- What a capture in this mode returns: an utterance, in this mode, and in the wake-command mode with
-- a keyphrase.
pub record IsCaptured {Sample : Type 0} (mode : ConversationMode) (r : CaptureResult Sample)
    : Type 0 where
  pub same_mode : r.conversation_mode ≡ mode
  pub has_utterance : is_some r.utterance ≡ true
  pub not_switched : r.mode_switched ≡ false
  pub heard : mode ≡ wake_command → is_some r.keyphrase_detection ≡ true

abbrev pub Returned : {Sample : Type 0} → ConversationMode → Option (CaptureResult Sample) → Type 0
Returned mode none = Unit {0}
Returned mode (some r) = IsCaptured mode r

abbrev pub Sound : {Sample : Type 0} → ConversationMode → Ended Sample → Type 0
Sound mode (captured r) = IsCaptured mode r
Sound mode (raised e) = Unit {0}

pub and_lem : (a b : Bool) → (a && b) ≡ true → a ≡ false → ⊥
and_lem true b e f = cc f
and_lem false b e f = cc e

pub heard_lem : (a b : Bool) → (a && not b) ≡ false → a ≡ true → b ≡ true
heard_lem true true e f = refl
heard_lem true false e f = absurd (cc e)
heard_lem false b e f = absurd (cc f)

module _ {Sample Sp F : Type 0} (spotter : Spotter Sample Sp) (config : PipelineConfig F) where
  abbrev pub Gated : ConversationMode → CaptureState Sample Sp × Option (GateResult Sample) → Type 0
  Gated mode (st, none) = IsFaithful mode st
  Gated mode (st, some result) = IsFaithful mode st × (is_some st.keyphrase_detection ≡ true)

  pub gate_detected_lem :
      (mode : ConversationMode) (st : CaptureState Sample Sp)
      (heard : Sp × Option KeyphraseDetection) (started now : ℕ)
      → IsFaithful mode st
      → Gated mode (gate_detected spotter config st heard started now)
  unfolding gate_detected
  gate_detected_lem mode st (sp, none) started now v = record {
    same_mode = v.same_mode;
    not_switched = v.not_switched;
    required = v.required;
  }
  gate_detected_lem mode st (sp, some d) started now v = (
    record { same_mode = v.same_mode; not_switched = v.not_switched; required = v.required },
    refl,
  )

  pub gate_listen_lem :
      (mode : ConversationMode) (st : CaptureState Sample Sp) (sp : Option Sp) (frame : List Sample)
      (started now : ℕ)
      → IsFaithful mode st
      → Gated mode (gate_listen spotter config st sp frame started now)
  unfolding gate_listen
  gate_listen_lem mode st none frame started now v = v
  gate_listen_lem mode st (some sp) frame started now v =
      gate_detected_lem mode st (spotter.detect (spotter.append sp frame)) started now v

  pub gate_accept_lem :
      (mode : ConversationMode) (st : CaptureState Sample Sp) (frame : List Sample)
      (started now : ℕ)
      → IsFaithful mode st
      → Gated mode (gate_accept spotter config st frame started now)
  unfolding gate_accept
  gate_accept_lem mode st frame started now v =
      let st' : CaptureState Sample Sp = record st {
        carry_frames = push_bounded st.carry_limit st.carry_frames frame;
      } in
      gate_listen_lem mode st' st.keyphrase_spotter frame started now
        (record { same_mode = v.same_mode; not_switched = v.not_switched; required = v.required })

module _ {Sample Sp F D : Type 0} (detect : D → List Sample → D × VoiceActivityDecision F) where
  pub note_recording-Same :
      (r : Bool) (st : CaptureState Sample Sp) (now : ℕ) → Same st (note_recording detect r st now)
  unfolding note_recording
  note_recording-Same r st now =
      let st' : CaptureState Sample Sp = record st {
        speech_started_at = some now;
        post_activation_deadline = none;
      } in
      if_ind (λ (x : CaptureState Sample Sp). Same st (record x { was_recording = r }))
        (r && not st.was_recording) st' st
        (λ _. record { mode = refl; switched = refl; required = refl; detection = refl })
        (λ _. record { mode = refl; switched = refl; required = refl; detection = refl })

  pub replay_wake_audio-Same :
      (seg : Segmenter Sample F D) (st : CaptureState Sample Sp) (frames : List (List Sample))
      (now : ℕ)
      → Same st (replay_wake_audio detect seg st frames now).1
  unfolding replay_wake_audio accept_speech_frame
  replay_wake_audio-Same seg st [] now = record {
    mode = refl;
    switched = refl;
    required = refl;
    detection = refl;
  }
  replay_wake_audio-Same seg st (frame ∷ frames) now =
      let seg' : Segmenter Sample F D = (Segmenter.accept detect seg frame).0 in
      let st' : CaptureState Sample Sp = note_recording detect seg'.recording st now in
      let kept : Same st st' = note_recording-Same seg'.recording st now in
      if_ind
        (λ (x : Segmenter Sample F D × CaptureState Sample Sp × Option (DetectedUtterance Sample)).
          Same st x.1)
        (is_some (Segmenter.accept detect seg frame).1)
        (seg', record st' { carry_frames = [] }, (Segmenter.accept detect seg frame).1)
        (replay_wake_audio detect seg' st' frames now)
        (λ _. record {
          mode = kept.mode;
          switched = kept.switched;
          required = kept.required;
          detection = kept.detection;
        })
        (λ _. Same-trans st st' _ kept (replay_wake_audio-Same seg' st' frames now))
