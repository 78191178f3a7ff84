-- ===== src/Voice/Capture/Kept.antt =====
-- What the keyphrase gate and the capture flow leave as it was in the capture state.
use reframe_web.Prelude.{
  ℕ, ◌≡◌, refl, ◌∙◌, Bool, not, ◌&&◌, Option, none, some, List, [], ◌∷◌, is_some, if_ind,
}
use reframe_web.Voice.Vad.{VoiceActivityDecision}
use reframe_web.Voice.Segmenter
use reframe_web.Voice.Segmenter.{Segmenter, push_bounded, DetectedUtterance}
use reframe_web.Voice.Capture.{
  CaptureState, KeyphraseDetection, PipelineConfig, Spotter, accept_speech_event,
  accept_speech_frame, gate_accept, gate_detected, gate_listen, note_recording, replay_wake_audio,
}

module _ {Sample Sp F : Type 0} (spotter : Spotter Sample Sp) (config : PipelineConfig F) where
  gate_detected-mode_switched :
      (st : CaptureState Sample Sp) (heard : Sp × Option KeyphraseDetection) (started now : ℕ)
      → (gate_detected spotter config st heard started now).0.mode_switched ≡ st.mode_switched
  unfolding gate_detected
  gate_detected-mode_switched st (sp, none) started now = refl
  gate_detected-mode_switched st (sp, some d) started now = refl

  gate_listen-mode_switched :
      (st : CaptureState Sample Sp) (sp : Option Sp) (frame : List Sample) (started now : ℕ)
      → (gate_listen spotter config st sp frame started now).0.mode_switched ≡ st.mode_switched
  unfolding gate_listen
  gate_listen-mode_switched st none frame started now = refl
  gate_listen-mode_switched st (some sp) frame started now =
      gate_detected-mode_switched st (spotter.detect (spotter.append sp frame)) started now

  pub gate_accept-mode_switched :
      (st : CaptureState Sample Sp) (frame : List Sample) (started now : ℕ)
      → (gate_accept spotter config st frame started now).0.mode_switched ≡ st.mode_switched
  unfolding gate_accept
  gate_accept-mode_switched st frame started now =
      gate_listen-mode_switched
        (record st { carry_frames = push_bounded st.carry_limit st.carry_frames frame })
        st.keyphrase_spotter frame started now

module _ {Sample Sp F D : Type 0} (detect : D → List Sample → D × VoiceActivityDecision F) where
  note_recording-mode_switched :
      (r : Bool) (st : CaptureState Sample Sp) (now : ℕ)
      → (note_recording detect r st now).mode_switched ≡ st.mode_switched
  unfolding note_recording
  note_recording-mode_switched r st now =
      if_ind (λ (x : CaptureState Sample Sp). x.mode_switched ≡ st.mode_switched)
        (r && not st.was_recording)
        (record st { speech_started_at = some now; post_activation_deadline = none }) st (λ _. refl)
        (λ _. refl)

  pub accept_speech_event-mode_switched :
      (seg : Segmenter Sample F D) (st : CaptureState Sample Sp) (frame : List Sample) (now : ℕ)
      → (accept_speech_event detect seg st frame now).1.mode_switched ≡ st.mode_switched
  unfolding accept_speech_event
  accept_speech_event-mode_switched seg st frame now =
      note_recording-mode_switched (Segmenter.accept_event detect seg frame).0.recording st now

  pub replay_wake_audio-mode_switched :
      (seg : Segmenter Sample F D) (st : CaptureState Sample Sp) (frames : List (List Sample))
      (now : ℕ)
      → (replay_wake_audio detect seg st frames now).1.mode_switched ≡ st.mode_switched
  unfolding replay_wake_audio accept_speech_frame
  replay_wake_audio-mode_switched seg st [] now = refl
  replay_wake_audio-mode_switched seg st (frame ∷ frames) now =
      let seg' : Segmenter Sample F D = (Segmenter.accept detect seg frame).0 in
      let st' : CaptureState Sample Sp = note_recording detect seg'.recording st now in
      let kept : st'.mode_switched ≡ st.mode_switched =
        note_recording-mode_switched seg'.recording st now in
      if_ind
        (λ (x : Segmenter Sample F D × CaptureState Sample Sp × Option (DetectedUtterance Sample)).
          x.1.mode_switched ≡ st.mode_switched)
        (is_some (Segmenter.accept detect seg frame).1)
        (seg', record st' { carry_frames = [] }, (Segmenter.accept detect seg frame).1)
        (replay_wake_audio detect seg' st' frames now) (λ _. kept)
        (λ _. replay_wake_audio-mode_switched seg' st' frames now ∙ kept)
