-- ===== src/Voice/TurnProcessor.antt =====
-- turn_processor.py of agent-host/src/reframe_agent_host/voice: what becomes of a captured turn. The
-- awaits run on the schedule of TurnControl; the messages of `on_event` are left out. The transcriber,
-- the trigger patterns, the noise gate on floats and the agent's turn are arguments.
pub mod Guarded
pub mod Ends
use reframe_web.Prelude.{
  ℕ, ◌+◌, Bool, true, false, not, ◌&&◌, Option, none, some, List, [], ◌∷◌, ◌++◌, if◌then◌else◌,
  is_some,
}
use reframe_web.Voice.Segmenter.{DetectedUtterance}
use reframe_web.Voice.Mode.{
  ConversationMode, continuous_conversation, mode_eq, Controller, set_mode,
}
use reframe_web.Voice.TurnControl.{
  TurnControl, Pause, Outcome, returned, cancelled_error, waiting, after_pause, checkpoint,
  wait_for_commit_or_cancel, wait_until_committed,
}
use reframe_web.Voice.Capture.{CaptureResult, KeyphraseDetection, KeyphraseKind, is_conversation_on}

-- `TriggerPhraseDetection`, without the phrase that only messages show
pub record Trigger (Text : Type 0) : Type 0 where
  pub kind : KeyphraseKind
  pub routed_transcript : Text

-- What a turn does to the world outside it.
pub data Effect (Text : Type 0) : Type 0 where
  turn_on_conversation : Effect Text
  record_human_reply : Text → Effect Text
  agent_turn : Text → Effect Text
  resolve_human_reply : Text → Effect Text

-- The control of the turn, if it has one, what others will do while it waits, the shared mode, and
-- the effects so far, each with the control as it was then.
pub record World (Text : Type 0) : Type 0 where
  pub control : Option TurnControl
  pub schedule : List Pause
  pub mode_controller : Option Controller
  pub effects : List (Option TurnControl × Effect Text)

pub data Ended (A : Type 0) : Type 0 where
  done : A → Ended A
  cancelled : Ended A
  pending : Ended A
  failed : Ended A

pub data TurnResult (R : Type 0) : Type 0 where
  mode_switch_result : ConversationMode → TurnResult R
  ignored_result : TurnResult R
  handled : R → TurnResult R

abbrev pub M : Type 0 → Type 0 → Type 0
M Text A = World Text → World Text × Ended A

abbrev pub go_on :
    {Text A B : Type 0} → World Text × Ended A → (A → M Text B) → World Text × Ended B
go_on (w, done a) f = f a w
go_on (w, cancelled) f = (w, cancelled)
go_on (w, pending) f = (w, pending)
go_on (w, failed) f = (w, failed)

infixl 5 ◌>>=◌ ◌>>◌
abbrev pub ◌>>=◌ : {Text A B : Type 0} → M Text A → (A → M Text B) → M Text B
◌>>=◌ m f w = go_on (m w) f

abbrev pub ◌>>◌ : {Text A B : Type 0} → M Text A → M Text B → M Text B
m >> k = m >>= λ _. k

abbrev pub ended_of : Outcome Bool → Ended (Unit {0})
ended_of (returned b) = done tt
ended_of cancelled_error = cancelled
ended_of waiting = pending

abbrev pub set_conversation : Option Controller → Option Controller
set_conversation none = none
set_conversation (some c) = some (set_mode c continuous_conversation).0

module _ {Text : Type 0} where
  abbrev pub pure : {A : Type 0} → A → M Text A
  pure a w = (w, done a)

  abbrev pub perform : Effect Text → M Text (Unit {0})
  perform e w = (record w { effects = w.effects ++ (w.control, e) ∷ [] }, done tt)

  -- An await of the control; a turn without one goes on at once.
  await_control :
      (TurnControl → List Pause → TurnControl × List Pause × Outcome Bool)
      → Option TurnControl
      → M Text (Unit {0})
  await_control run none w = (w, done tt)
  await_control run (some c) w =
      let (c', ps, outcome) = run c w.schedule in
      (record w { control = some c'; schedule = ps }, ended_of outcome)

  -- `_wait_until_committed`
  unfoldable pub until_committed : M Text (Unit {0})
  unfolding await_control
  until_committed w = await_control wait_until_committed w.control w

  -- `_wait_for_speculative_transcription_start`
  unfoldable pub speculative_start : ℕ → M Text (Unit {0})
  unfolding await_control
  speculative_start grace w = await_control (wait_for_commit_or_cancel grace) w.control w

  -- `run_in_daemon_thread`, during which others run, and the checkpoint behind it
  in_thread : {A : Type 0} → A → Option TurnControl → List Pause → M Text A
  in_thread a none ps w = (w, done a)
  in_thread a (some c) [] w = (w, if c.cancelled then cancelled else done a)
  in_thread a (some c) (p ∷ ps) w =
      let c' = after_pause c p in
      (record w { control = some c'; schedule = ps }, if c'.cancelled then cancelled else done a)

  unfoldable pub transcribe_in_thread : {A : Type 0} → A → M Text A
  unfolding in_thread
  transcribe_in_thread a w = in_thread a w.control w.schedule w

  -- `_is_conversation_on_trigger_only`
  abbrev pub is_trigger_only : (Text → Bool) → Option (Trigger Text) → Bool
  is_trigger_only is_empty none = false
  is_trigger_only is_empty (some t) = is_conversation_on t.kind && is_empty t.routed_transcript

  abbrev pub routed : Text → Option (Trigger Text) → Text
  routed text none = text
  routed text (some t) = t.routed_transcript

  -- `_turn_on_conversation_mode`
  unfoldable pub turn_on_conversation_mode : M Text ConversationMode
  turn_on_conversation_mode w = (
    record w {
      mode_controller = set_conversation w.mode_controller;
      effects = w.effects ++ (w.control, turn_on_conversation) ∷ [];
    },
    done continuous_conversation,
  )

-- The mode is turned on, and the turn is over.
unfoldable pub switch_on : {Text R : Type 0} → M Text (TurnResult R)
switch_on = do mode ← turn_on_conversation_mode; pure (mode_switch_result mode)

-- `_is_continuous_unprompted`
abbrev pub is_continuous_unprompted :
    {Sample : Type 0} → ConversationMode → CaptureResult Sample → Bool
is_continuous_unprompted mode capture =
    mode_eq mode continuous_conversation && not (is_some capture.keyphrase_detection)

-- `_is_conversation_on_confirmation`
abbrev pub is_confirmation : {Sample : Type 0} → CaptureResult Sample → Bool
is_confirmation capture = elim capture.keyphrase_detection [
  | none ↦ false
  | some d ↦ is_conversation_on d.kind && not capture.mode_switched
]

-- What the processor was built with.
pub record Collaborators (Sample Text R : Type 0) : Type 0 where
  pub is_empty : Text → Bool
  pub grace : ℕ
  pub is_noise : DetectedUtterance Sample → Bool
  pub transcribe : DetectedUtterance Sample → Text
  pub transcribe_with_prompt : DetectedUtterance Sample → Text
  pub match_trigger : Text → Option (Trigger Text)
  pub match_confirmed : Text → KeyphraseDetection → Option (Trigger Text)
  pub agent : Text → Option TurnControl → List Pause → Option TurnControl × List Pause × Ended R

module _ {Sample Text R : Type 0} (k : Collaborators Sample Text R) where
  abbrev pub match_capture : CaptureResult Sample → Text → Option (Trigger Text)
  match_capture capture text = elim capture.keyphrase_detection [
    | none ↦ k.match_trigger text
    | some d ↦ k.match_confirmed text d
  ]

  -- `process_agent_turn`
  unfoldable pub run_agent : Text → M Text R
  run_agent text w =
      let (c, ps, outcome) = k.agent text w.control w.schedule in
      (
        record w {
          control = c;
          schedule = ps;
          effects = w.effects ++ (w.control, agent_turn text) ∷ [];
        },
        outcome,
      )

  unfoldable pub remember_reply : Text → M Text (Unit {0})
  remember_reply text = if k.is_empty text then pure tt else perform (record_human_reply text)

  unfoldable pub resolve_reply : Text → M Text (Unit {0})
  resolve_reply text = if k.is_empty text then pure tt else perform (resolve_human_reply text)

  -- `_process_conversation_on_confirmation`
  unfoldable pub process_confirmation :
      DetectedUtterance Sample → KeyphraseDetection → M Text (TurnResult R)
  process_confirmation u d = do
    speculative_start k.grace
    text ← transcribe_in_thread (k.transcribe_with_prompt u)
    until_committed
    if is_trigger_only k.is_empty (k.match_confirmed text d) then switch_on else pure ignored_result

  -- The end of `process`, for a transcript that does not only switch the mode on.
  unfoldable pub process_transcript : Text → M Text (TurnResult R)
  process_transcript text = do
    until_committed
    remember_reply text
    result ← run_agent text
    resolve_reply text
    pure (handled result)

  unfoldable pub process_speech :
      CaptureResult Sample → DetectedUtterance Sample → M Text (TurnResult R)
  process_speech capture u = do
    speculative_start k.grace
    text ← transcribe_in_thread (k.transcribe u)
    if is_trigger_only k.is_empty (match_capture capture text)
        then (do until_committed; switch_on)
        else process_transcript (routed text (match_capture capture text))

  process_utterance :
      CaptureResult Sample → ConversationMode → DetectedUtterance Sample → M Text (TurnResult R)
  process_utterance capture mode u =
      if is_continuous_unprompted mode capture && k.is_noise u
      then (do until_committed; pure ignored_result)
      else elim capture.keyphrase_detection [
        | none ↦ process_speech capture u
        | some d ↦
            if is_confirmation capture then process_confirmation u d else process_speech capture u
      ]

  process_captured :
      CaptureResult Sample
      → ConversationMode
      → Option (DetectedUtterance Sample)
      → M Text (TurnResult R)
  unfolding process_utterance
  process_captured capture mode none w =
      (w, if capture.mode_switched then done (mode_switch_result mode) else failed)
  process_captured capture mode (some u) w = process_utterance capture mode u w

  -- `process`
  unfoldable pub process : CaptureResult Sample → ConversationMode → M Text (TurnResult R)
  unfolding process_captured
  process capture mode = process_captured capture mode capture.utterance
