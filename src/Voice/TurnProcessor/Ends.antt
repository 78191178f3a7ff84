-- ===== src/Voice/TurnProcessor/Ends.antt =====
-- How a turn ends: cancelled where its control was, and done where it was committed.
use reframe_web.Prelude.{
  ℕ, ◌≡◌, refl, ap, Bool, true, false, ◌&&◌, Option, none, some, List, if◌then◌else◌, if_ind,
}
use reframe_web.Voice.Segmenter.{DetectedUtterance}
use reframe_web.Voice.Mode.{ConversationMode, Controller}
use reframe_web.Voice.TurnControl.{
  TurnControl, Pause, wait_for_commit_or_cancel, wait_until_committed, checkpoint,
}
use reframe_web.Voice.Capture.{CaptureResult, KeyphraseDetection}
use reframe_web.Voice.TurnProcessor.{
  Effect, World, cancelled, TurnResult, ignored_result, M, go_on, ◌>>=◌, ◌>>◌, pure, await_control,
  until_committed, speculative_start, is_continuous_unprompted, is_confirmation, Collaborators,
  process_confirmation, process_speech, process_utterance, process_captured, process,
}

-- A turn whose control is cancelled.
abbrev pub cancelled_world :
    {Text : Type 0}
    → Bool
    → List Pause
    → Option Controller
    → List (Option TurnControl × Effect Text)
    → World Text
cancelled_world committed ps controller effects = record {
  control = some (record { cancelled = true; committed = committed });
  schedule = ps;
  mode_controller = controller;
  effects = effects;
}

module _ {Text : Type 0} where
  until_committed-cancelled :
      (b : Bool) (ps : List Pause) (mc : Option Controller)
      (es : List (Option TurnControl × Effect Text))
      → until_committed (cancelled_world b ps mc es) ≡ (cancelled_world b ps mc es, cancelled)
  unfolding until_committed await_control wait_until_committed checkpoint
  until_committed-cancelled true ps mc es = refl
  until_committed-cancelled false ps mc es = refl

  speculative_start-cancelled :
      (grace : ℕ) (b : Bool) (ps : List Pause) (mc : Option Controller)
      (es : List (Option TurnControl × Effect Text))
      → speculative_start grace (cancelled_world b ps mc es)
        ≡ (cancelled_world b ps mc es, cancelled)
  unfolding speculative_start await_control wait_for_commit_or_cancel checkpoint
  speculative_start-cancelled grace true ps mc es = refl
  speculative_start-cancelled grace false ps mc es = refl

module _ {Sample Text R : Type 0} (k : Collaborators Sample Text R) (b : Bool) (ps : List Pause)
    (mc : Option Controller) (es : List (Option TurnControl × Effect Text)) where
  Stops : M Text (TurnResult R) → Type 0
  Stops m = m (cancelled_world b ps mc es) ≡ (cancelled_world b ps mc es, cancelled)

  bind-Stops :
      {A : Type 0} (m : M Text A) (f : A → M Text (TurnResult R))
      → m (cancelled_world b ps mc es) ≡ (cancelled_world b ps mc es, cancelled)
      → Stops (m >>= f)
  unfolding Stops
  bind-Stops m f h = ap (λ x. go_on x f) h

  process_speech-Stops :
      (capture : CaptureResult Sample) (u : DetectedUtterance Sample)
      → Stops (process_speech k capture u)
  unfolding process_speech
  process_speech-Stops capture u =
      bind-Stops (speculative_start k.grace) _ (speculative_start-cancelled k.grace b ps mc es)

  process_confirmation-Stops :
      (u : DetectedUtterance Sample) (d : KeyphraseDetection) → Stops (process_confirmation k u d)
  unfolding process_confirmation
  process_confirmation-Stops u d =
      bind-Stops (speculative_start k.grace) _ (speculative_start-cancelled k.grace b ps mc es)

  spoken-Stops :
      (capture : CaptureResult Sample) (detection : Option KeyphraseDetection)
      (u : DetectedUtterance Sample)
      → Stops (elim detection [
        | none ↦ process_speech k capture u
        | some d ↦
            if is_confirmation capture
            then process_confirmation k u d
            else process_speech k capture u
      ])
  spoken-Stops capture none u = process_speech-Stops capture u
  spoken-Stops capture (some d) u =
      if_ind Stops (is_confirmation capture) _ _ (λ _. process_confirmation-Stops u d)
        λ _. process_speech-Stops capture u

  process_utterance-Stops :
      (capture : CaptureResult Sample) (mode : ConversationMode) (u : DetectedUtterance Sample)
      → Stops (process_utterance k capture mode u)
  unfolding process_utterance
  process_utterance-Stops capture mode u =
      if_ind Stops (is_continuous_unprompted mode capture && k.is_noise u)
        (do until_committed; pure ignored_result) _
        (λ _. bind-Stops until_committed _ (until_committed-cancelled b ps mc es))
        λ _. spoken-Stops capture capture.keyphrase_detection u

  captured-Stops :
      (capture : CaptureResult Sample) (mode : ConversationMode)
      (utterance : Option (DetectedUtterance Sample)) (u : DetectedUtterance Sample)
      → utterance ≡ some u
      → Stops (process_captured k capture mode utterance)
  unfolding process_captured Stops
  captured-Stops capture mode none u e = absurd cc
  captured-Stops capture mode (some v) u e = process_utterance-Stops capture mode v

  -- A turn with an utterance whose control is cancelled when it starts, whether or not it was
  -- committed too, ends as cancelled and changes nothing at all.
  pub cancelled_turn_stops :
      (capture : CaptureResult Sample) (mode : ConversationMode) (u : DetectedUtterance Sample)
      → capture.utterance ≡ some u
      → process k capture mode (cancelled_world b ps mc es)
        ≡ (cancelled_world b ps mc es, cancelled)
  unfolding process Stops
  cancelled_turn_stops capture mode u e = captured-Stops capture mode capture.utterance u e
