-- ===== src/Tests/Voice.antt =====
-- Runs of the activity detector, the segmenter, the mode and the capture session.
use reframe_web.Prelude.{
  ℕ, ◌≡◌, refl, ◌<◌, true, false, not, List, [], ◌∷◌, ◌++◌, length, if◌then◌else◌, All, arith,
}
use reframe_web.Voice.Vad.{EnergyDetector, accept_energy}
use reframe_web.Voice.Vad.Hysteresis.{
  accept_energy_edges, start_needs_run, run_starts, starts_within, is_loud,
}
use reframe_web.Voice.Segmenter
use reframe_web.Voice.Segmenter.{Segmenter}
use reframe_web.Voice.Segmenter.Fields.{IsValid, Explains, create-IsValid}
use reframe_web.Voice.Segmenter.Protocol.{accept_event_protocol}
use reframe_web.Voice.Segmenter.Chunking.{accept_event_rest}
use reframe_web.Voice.Mode.{
  ConversationMode, wake_command, continuous_conversation, create_controller, set_all, set_mode,
  version_detects_changes,
}
use reframe_web.Voice.TurnControl.{
  create_control, Pause, wait_until_committed, wait, checkpoint, wait_until_committed_safe,
}
use reframe_web.Voice.Capture.{create_state}
use reframe_web.Voice.Session.{run}
use reframe_web.Voice.Session.Runs.{IsFresh, EndsRight, run_protocol}
use reframe_web.Tests.Fixtures.{
  ops, voice_config, silent_detector, pipeline, deaf_spotter, fresh_session, rounds, detect,
}

pub is_fresh : (mode : ConversationMode) → IsFresh (fresh_session mode)
unfolding create_state
is_fresh mode = record {
  no_events_yet = refl;
  no_id_yet = refl;
  no_turn_yet = refl;
  nothing_held = refl;
  no_capture_held = refl;
  not_switched = refl;
}

run_protocol_example : EndsRight 1 (
    run deaf_spotter pipeline silent_detector detect 1
      (fresh_session continuous_conversation)
      0
      rounds
      false)
run_protocol_example =
    run_protocol deaf_spotter pipeline silent_detector detect 1
      (fresh_session continuous_conversation) 0 rounds false (is_fresh continuous_conversation)

abbrev segmenter : Segmenter ℕ ℕ (EnergyDetector ℕ)
segmenter = Segmenter.create silent_detector voice_config

accept_event_protocol_example :
    let (s', event) = Segmenter.accept_event detect segmenter (9 ∷ 9 ∷ 9 ∷ []) in
    IsValid s' × Explains segmenter event s'
accept_event_protocol_example =
    accept_event_protocol detect segmenter (9 ∷ 9 ∷ 9 ∷ [])
      (create-IsValid silent_detector voice_config)

accept_event_rest_example :
    length (Segmenter.accept_event detect segmenter (9 ∷ 9 ∷ 9 ∷ [])).0.pending < 2
unfolding Segmenter.create Segmenter.accept_event Segmenter.drain Segmenter.accept_chunk
    Segmenter.accept_before_start accept_energy
accept_event_rest_example =
    accept_event_rest detect segmenter (9 ∷ 9 ∷ 9 ∷ []) (omega arith) (omega arith) refl

accept_energy_edges_example :
    let (d', decision) = accept_energy ops silent_detector (9 ∷ []) in
    (decision.is_speech ≡ d'.in_speech)
    × (decision.started ≡ (if silent_detector.in_speech then false else d'.in_speech))
    × (decision.ended ≡ (if silent_detector.in_speech then not d'.in_speech else false))
accept_energy_edges_example = accept_energy_edges ops silent_detector (9 ∷ [])

start_needs_run_example :
    (a : List (List ℕ)) × (b : List (List ℕ)) × ((0 ∷ []) ∷ (9 ∷ []) ∷ [] ≡ a ++ b)
    × (length b ≡ 1)
    × All (λ x. is_loud ops voice_config x ≡ true) b
unfolding accept_energy
start_needs_run_example =
    start_needs_run ops silent_detector ((0 ∷ []) ∷ []) (9 ∷ []) refl refl (omega arith) refl refl

run_starts_example : starts_within ops silent_detector ((9 ∷ []) ∷ (7 ∷ []) ∷ []) ≡ true
unfolding accept_energy
run_starts_example =
    run_starts ops silent_detector ((9 ∷ []) ∷ (7 ∷ []) ∷ []) refl (omega arith) (omega arith)
      (refl, (refl, tt))

version_detects_changes_example :
    All (λ m. m ≡ wake_command) (wake_command ∷ [])
    × (set_all (create_controller wake_command) (wake_command ∷ [])
        ≡ create_controller wake_command)
unfolding set_all set_mode
version_detects_changes_example =
    version_detects_changes (create_controller wake_command) (wake_command ∷ []) refl

abbrev pauses : List Pause
pauses =
    record { cancels = false; commits = false; elapsed = 3 }
    ∷ record { cancels = false; commits = true; elapsed = 2 }
    ∷ []

wait_until_committed_safe_example :
    ((wait_until_committed create_control pauses).0.committed ≡ true)
    × ((wait_until_committed create_control pauses).0.cancelled ≡ false)
unfolding wait_until_committed wait checkpoint
wait_until_committed_safe_example = wait_until_committed_safe create_control pauses true refl
