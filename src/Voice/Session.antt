-- ===== src/Voice/Session.antt =====
-- speculative_capture_session.py of agent-host/src/reframe_agent_host/voice: the capture thread. One
-- round of the loop of `run` is a step on the session and on what the round finds: the frame, the
-- stop event, the calls of `ConversationModeController.set` by others since the last round, and the
-- clock, read once a round.
pub mod Ledger
pub mod Sound
pub mod Protocol
pub mod Runs
use reframe_web.Prelude.{
  ℕ, zero, suc, ◌+◌, ◌-◌, ◌*◌, ◌/◌, Bool, true, false, not, ◌&&◌, ◌||◌, Option, none, some, List,
  [], ◌∷◌, ◌++◌, leb, ltb, ◌==◌, if◌then◌else◌, is_some,
}
use reframe_web.Voice.Vad.{VoiceActivityConfig, VoiceActivityDecision}
use reframe_web.Voice.Segmenter
use reframe_web.Voice.Segmenter.{Segmenter, DetectedUtterance, UtteranceEvent}
use reframe_web.Voice.Mode.{ConversationMode, Controller, mode_eq, set_mode, set_all}
use reframe_web.Voice.Capture.{
  CaptureResult, CaptureState, GateResult, KeyphraseDetection, PipelineConfig, Spotter,
  activation_window_expired, accept_speech_event, create_state, close_spotters, finish_confirmation,
  finish_mode_switch, finish_with_utterance, gate_accept, gate_start, listen_deadline,
  listen_timed_out, replay_wake_audio,
}

-- `CaptureStreamEvent`
pub data CaptureEvent (Sample : Type 0) : Type 0 where
  endpoint : ℕ → CaptureResult Sample → CaptureEvent Sample
  resumed : ℕ → CaptureEvent Sample
  confirmed : ℕ → CaptureResult Sample → CaptureEvent Sample
  mode_switch : ℕ → CaptureResult Sample → CaptureEvent Sample

-- The attributes of the session, the locals of `run`, and the events handed to `on_capture_event`.
-- `mode_controller` is shared with the turns.
pub record Session (Sample Sp F D : Type 0) : Type 0 where
  pub conversation_mode : ConversationMode
  pub mode_version : ℕ
  pub mode_controller : Option Controller
  pub turn_id : ℕ
  pub pending_turn_id : Option ℕ
  pub pending_capture : Option (CaptureResult Sample)
  pub completed_turns : ℕ
  pub segmenter : Segmenter Sample F D
  pub state : CaptureState Sample Sp
  pub deadline : Option ℕ
  pub listen_started_at : ℕ
  pub events : List (CaptureEvent Sample)

-- What one round finds.
pub record Round (Sample : Type 0) : Type 0 where
  pub frame : List Sample
  pub stopped : Bool
  pub modes_set : List ConversationMode
  pub now : ℕ

pub data CaptureError : Type 0 where
  interrupted timed_out stream_closed : CaptureError

-- A round goes on, returns from `run`, or raises.
pub data Progress (S : Type 0) : Type 0 where
  next : S → Progress S
  finished : S → Progress S
  raised : CaptureError → S → Progress S

abbrev pub session_of : {S : Type 0} → Progress S → S
session_of (next s) = s
session_of (finished s) = s
session_of (raised e s) = s

abbrev pub and_then : {S : Type 0} → Progress S → (S → Progress S) → Progress S
and_then (next s) f = f s
and_then (finished s) f = finished s
and_then (raised e s) f = raised e s

-- What others set before the round; with no controller there is nobody to set it.
abbrev pub set_by_others : Option Controller → List ConversationMode → Option Controller
set_by_others none ms = none
set_by_others (some c) ms = some (set_all c ms)

-- `_endpoint_is_final`
unfoldable pub endpoint_is_final :
    {Sample F : Type 0} → PipelineConfig F → CaptureResult Sample → Bool
endpoint_is_final config result = elim result.utterance [
  | none ↦ false
  | some u ↦
      u.forced_end
      || leb config.voice_activity.final_silence_ms config.voice_activity.min_silence_ms
]

module _ {Sample Sp F D : Type 0} where
  -- `_sync_external_mode_change`, on the controller's snapshot
  unfoldable pub sync_snapshot :
      Session Sample Sp F D → Option Controller → Session Sample Sp F D × Bool
  sync_snapshot s none = (s, false)
  sync_snapshot s (some c) =
      if c.version == s.mode_version
      then (s, false)
      else if mode_eq c.mode s.state.conversation_mode
      then (record s { mode_version = c.version }, false)
      else (record s { mode_version = c.version; conversation_mode = c.mode }, true)

  unfoldable pub sync_external_mode_change : Session Sample Sp F D → Session Sample Sp F D × Bool
  unfolding sync_snapshot
  sync_external_mode_change s = sync_snapshot s s.mode_controller

  -- The two branches of `emit_endpoint`, with the turn id of `next_turn_id`
  unfoldable pub emit_final : Session Sample Sp F D → CaptureResult Sample → Session Sample Sp F D
  emit_final s result =
      let id = s.turn_id + 1 in
      record s {
        turn_id = id;
        events = (s.events ++ endpoint id result ∷ []) ++ confirmed id result ∷ [];
        pending_turn_id = none;
        pending_capture = none;
      }

  unfoldable pub emit_open : Session Sample Sp F D → CaptureResult Sample → Session Sample Sp F D
  emit_open s result =
      let id = s.turn_id + 1 in
      record s {
        turn_id = id;
        events = s.events ++ endpoint id result ∷ [];
        pending_turn_id = some id;
        pending_capture = some result;
      }

  unfoldable pub emit_endpoint :
      PipelineConfig F → Session Sample Sp F D → CaptureResult Sample → Session Sample Sp F D
  emit_endpoint config s result =
      if endpoint_is_final config result then emit_final s result else emit_open s result

  -- `turn_finished` sets the controller to the mode of the capture.
  unfoldable pub finish_controller :
      Session Sample Sp F D → Option Controller → ConversationMode → Session Sample Sp F D
  finish_controller s none mode = record s { conversation_mode = mode }
  finish_controller s (some c) mode =
      let (c', changed) = set_mode c mode in
      record s { conversation_mode = mode; mode_controller = some c'; mode_version = c'.version }

  unfoldable pub turn_finished :
      Session Sample Sp F D → CaptureResult Sample → Session Sample Sp F D
  unfolding finish_controller
  turn_finished s result =
      let s' = finish_controller s s.mode_controller result.conversation_mode in
      record s' { completed_turns = s'.completed_turns + 1 }

  -- The mode with which `_start_turn` begins
  unfoldable pub mode_at_start : Session Sample Sp F D → Option Controller → Session Sample Sp F D
  mode_at_start s none = s
  mode_at_start s (some c) = record s { conversation_mode = c.mode; mode_version = c.version }

  -- The value of `turn_finished`: whether this was the last turn wanted.
  abbrev pub was_last : ℕ → Session Sample Sp F D → Bool
  was_last max_turns s = ltb 0 max_turns && leb max_turns s.completed_turns

module _ {Sample Sp F D : Type 0} (spotter : Spotter Sample Sp) (config : PipelineConfig F)
    (new_detector : D) (detect : D → List Sample → D × VoiceActivityDecision F)
    (max_turns : ℕ) where
  -- `_start_turn`
  unfoldable pub start_turn : Session Sample Sp F D → ℕ → Session Sample Sp F D
  unfolding mode_at_start
  start_turn s now =
      let s' = mode_at_start s s.mode_controller in
      let state = create_state config s'.conversation_mode in
      record s' {
        segmenter = Segmenter.create new_detector config.voice_activity;
        state = if state.keyphrase_required then gate_start spotter config state else state;
        deadline = listen_deadline config now;
        listen_started_at = now;
      }

  -- A turn has ended: `run` returns, or the next turn starts.
  unfoldable pub end_turn :
      Session Sample Sp F D → CaptureResult Sample → ℕ → Progress (Session Sample Sp F D)
  end_turn s result now =
      let s' = turn_finished s result in
      if was_last max_turns s'
      then finished s'
      else next (start_turn (record s' { state = close_spotters s'.state }) now)

  -- An endpoint has been captured.
  unfoldable pub take_endpoint :
      Session Sample Sp F D → CaptureResult Sample → ℕ → Progress (Session Sample Sp F D)
  take_endpoint s result now =
      let s' = emit_endpoint config s result in
      if endpoint_is_final config result then end_turn s' result now else next s'

  -- `_accept_keyphrase_frame`, on what the gate returned
  unfoldable pub gate_result :
      Session Sample Sp F D
      → Option (GateResult Sample)
      → ℕ
      → Session Sample Sp F D × Option (CaptureResult Sample)
  gate_result s none now = (s, none)
  gate_result s (some result) now =
      if result.conversation_enabled
      then (s, finish_confirmation config result s.state s.listen_started_at now)
      else let (segmenter, state, utterance) =
          replay_wake_audio detect s.segmenter s.state result.frames now in
        (
          record s { segmenter = segmenter; state = state },
          elim utterance [
            | none ↦ none
            | some u ↦ some (finish_with_utterance state u s.listen_started_at now)
          ],
        )

  unfoldable pub accept_keyphrase_frame :
      Session Sample Sp F D
      → List Sample
      → ℕ
      → Session Sample Sp F D × Option (CaptureResult Sample)
  accept_keyphrase_frame s frame now =
      let (state, result) = gate_accept spotter config s.state frame s.listen_started_at now in
      gate_result (record s { state = state }) result now

  -- The branch of `run` that waits for the keyphrase; it ends in `continue`.
  unfoldable pub keyphrase_branch :
      Session Sample Sp F D × Option (CaptureResult Sample) → ℕ → Progress (Session Sample Sp F D)
  keyphrase_branch (s, none) now = next s
  keyphrase_branch (s, some result) now = take_endpoint s result now

  -- The three kinds of event that the segmenter gives.
  unfoldable pub handle_event :
      Session Sample Sp F D → Option (UtteranceEvent Sample) → ℕ → Progress (Session Sample Sp F D)
  handle_event s none now = next s
  handle_event s (some (UtteranceEvent.endpoint u)) now =
      take_endpoint s (finish_with_utterance s.state u s.listen_started_at now) now
  handle_event s (some UtteranceEvent.resumed) now = next (elim s.pending_turn_id [
    | none ↦ s
    | some id ↦ record s {
      events = s.events ++ resumed id ∷ [];
      pending_turn_id = none;
      pending_capture = none;
    }
  ])
  handle_event s (some (UtteranceEvent.confirmed held)) now = elim s.pending_turn_id [
    | none ↦ next s
    | some id ↦ elim s.pending_capture [
      | none ↦ next s
      | some result ↦
          end_turn
            (record s {
              events = s.events ++ confirmed id result ∷ [];
              pending_turn_id = none;
              pending_capture = none;
            })
            result now
    ]
  ]

  unfoldable pub close_window : ℕ → Session Sample Sp F D → Progress (Session Sample Sp F D)
  close_window now s =
      let result = finish_mode_switch s.state s.listen_started_at now in
      if activation_window_expired s.state now
      then end_turn
          (record s {
            turn_id = s.turn_id + 1;
            events = s.events ++ mode_switch (s.turn_id + 1) result ∷ [];
          })
          result now
      else next s

  unfoldable pub check_timeout : ℕ → Session Sample Sp F D → Progress (Session Sample Sp F D)
  check_timeout now s =
      if listen_timed_out s.deadline s.state now then raised timed_out s else next s

  unfoldable pub speech_branch :
      Session Sample Sp F D → List Sample → ℕ → Progress (Session Sample Sp F D)
  speech_branch s frame now =
      let (segmenter, state, event) = accept_speech_event detect s.segmenter s.state frame now in
      and_then (handle_event (record s { segmenter = segmenter; state = state }) event now)
        λ s1. and_then (close_window now s1) (check_timeout now)

  -- One round of the loop.
  unfoldable pub step : Session Sample Sp F D → Round Sample → Progress (Session Sample Sp F D)
  step s r =
      let s0 = record s { mode_controller = set_by_others s.mode_controller r.modes_set } in
      let (s1, changed) = sync_external_mode_change s0 in
      if r.stopped
      then raised interrupted s0
      else if changed
      then next (
          start_turn
            (record s1 {
              pending_turn_id = none;
              pending_capture = none;
              state = close_spotters s1.state;
            })
            r.now)
      else if s1.state.keyphrase_required && not (is_some s1.state.keyphrase_detection)
      then keyphrase_branch (accept_keyphrase_frame s1 r.frame r.now) r.now
      else speech_branch s1 r.frame r.now

  -- `run` over the rounds that the microphone gives. Where the frames end before the loop does, the
  -- session raises, by the stop event or because the stream closed.
  unfoldable pub run_rounds :
      Session Sample Sp F D → List (Round Sample) → Bool → Progress (Session Sample Sp F D)
  run_rounds s [] stopped = raised (if stopped then interrupted else stream_closed) s
  run_rounds s (r ∷ rs) stopped = elim (step s r) [
    | next s' ↦ run_rounds s' rs stopped
    | finished s' ↦ finished s'
    | raised e s' ↦ raised e s'
  ]

  -- `run`: the first turn starts, and at the end the spotter is closed whatever happened.
  unfoldable pub run :
      Session Sample Sp F D → ℕ → List (Round Sample) → Bool → Progress (Session Sample Sp F D)
  run s now rs stopped = elim (run_rounds (start_turn s now) rs stopped) [
    | next s' ↦ next s'
    | finished s' ↦ finished (record s' { state = close_spotters s'.state })
    | raised e s' ↦ raised e (record s' { state = close_spotters s'.state })
  ]
