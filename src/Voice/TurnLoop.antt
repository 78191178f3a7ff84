-- ===== src/Voice/TurnLoop.antt =====
-- commands/voice_loop.py of agent-host/src/reframe_agent_host: the event loop's side of a capture
-- session. The queue hands the events over in the order of the capture thread, so the loop is a fold
-- over them. `apply_capture_mode` of voice/pipeline.py is the mode controller's `set`.
pub mod Follows
pub mod Commits
use reframe_web.Prelude.{
  ℕ, ◌+◌, Bool, true, false, Option, none, some, List, [], ◌∷◌, ◌++◌, ◌==◌, if◌then◌else◌, is_some,
}
use reframe_web.Voice.Mode.{Controller, set_mode}
use reframe_web.Voice.TurnControl.{TurnControl, create_control, cancel, commit}
use reframe_web.Voice.Capture.{CaptureResult}
use reframe_web.Voice.Session.{CaptureEvent, endpoint, resumed, confirmed, mode_switch}

-- A task of `_process_captured_voice_turn`, with what the loop does to it from outside.
pub record Turn (Sample : Type 0) : Type 0 where
  pub capture : CaptureResult Sample
  pub control : Option TurnControl
  pub task_cancelled : Bool
  pub prepare_seconds : ℕ

-- The locals of `_capture_and_start_speculative_session`. `active` is both `active_control` and
-- `active_task`, which are set and dropped together. A turn that the loop lets go of moves to
-- `released`, where nothing changes its control any more. `cancellations` counts the messages
-- "speech resumed before endpoint settled".
pub record Loop (Sample : Type 0) : Type 0 where
  pub active_turn_id : Option ℕ
  pub active_capture : Option (CaptureResult Sample)
  pub active : Option (Turn Sample)
  pub released : List (Turn Sample)
  pub first_flow : Bool
  pub conversation_mode : Controller
  pub cancellations : ℕ

-- `event.turn_id == active_turn_id`
abbrev pub is_active : ℕ → Option ℕ → Bool
is_active id none = false
is_active id (some active) = id == active

module _ {Sample : Type 0} where
  unfoldable pub create : Controller → Loop Sample
  create controller = record {
    active_turn_id = none;
    active_capture = none;
    active = none;
    released = [];
    first_flow = true;
    conversation_mode = controller;
    cancellations = 0;
  }

  abbrev pub on_control : (TurnControl → TurnControl) → Turn Sample → Turn Sample
  on_control f t = record t { control = elim t.control [ none ↦ none | some c ↦ some (f c) ] }

  abbrev pub cancel_turn : Turn Sample → Turn Sample
  cancel_turn t = record t {
    control = elim t.control [ none ↦ none | some c ↦ some (cancel c) ];
    task_cancelled = true;
  }

  -- The active turn leaves the loop, after `f`.
  abbrev pub release :
      (Turn Sample → Turn Sample) → Option (Turn Sample) → List (Turn Sample) → List (Turn Sample)
  release f none released = released
  release f (some t) released = released ++ f t ∷ []

  unfoldable pub start_turn :
      ℕ → Loop Sample → CaptureResult Sample → Option TurnControl → Turn Sample
  start_turn model_prepare_seconds s capture control = record {
    capture = capture;
    control = control;
    task_cancelled = false;
    prepare_seconds = if s.first_flow then model_prepare_seconds else 0;
  }

  -- `apply_capture_mode`
  abbrev pub apply_capture_mode : Controller → CaptureResult Sample → Controller
  apply_capture_mode c capture = (set_mode c capture.conversation_mode).0

  -- The body of the loop, for one event.
  unfoldable pub handle : ℕ → Loop Sample → CaptureEvent Sample → Loop Sample
  handle model_prepare_seconds s (endpoint id capture) = record s {
    active_turn_id = some id;
    active_capture = some capture;
    active = some (start_turn model_prepare_seconds s capture (some create_control));
    released = release cancel_turn s.active s.released;
    first_flow = false;
  }
  handle model_prepare_seconds s (resumed id) =
      if is_active id s.active_turn_id
      then record s {
        active_turn_id = none;
        active_capture = none;
        active = none;
        released = release cancel_turn s.active s.released;
        cancellations = s.cancellations + 1;
      }
      else s
  handle model_prepare_seconds s (confirmed id capture) = record s {
    active_turn_id = none;
    active_capture = none;
    active = none;
    released =
        release (if is_active id s.active_turn_id then on_control commit else λ t. t) s.active
          s.released;
    conversation_mode = apply_capture_mode s.conversation_mode capture;
  }
  handle model_prepare_seconds s (mode_switch id capture) = record s {
    released = s.released ++ start_turn model_prepare_seconds s capture none ∷ [];
    first_flow = false;
    conversation_mode = apply_capture_mode s.conversation_mode capture;
  }

  unfoldable pub handle_all : ℕ → Loop Sample → List (CaptureEvent Sample) → Loop Sample
  handle_all model_prepare_seconds s [] = s
  handle_all model_prepare_seconds s (e ∷ es) =
      handle_all model_prepare_seconds (handle model_prepare_seconds s e) es

  -- What the loop does when the capture fails or it is cancelled itself.
  unfoldable pub fail : Loop Sample → Loop Sample
  fail s = record s { active = none; released = release cancel_turn s.active s.released }
