-- ===== src/Voice/Session/Protocol.antt =====
-- Every round of the capture session keeps the protocol of its events, and `run` returns with the
-- turn that reaches `max_turns`.
use reframe_web.Prelude.{
  ℕ, ◌+◌, ◌≡◌, refl, ap, ◌∙◌, Bool, true, false, not, ◌&&◌, Option, none, some, List, [], ◌∷◌, ◌++◌,
  ◌==◌, is_some, arith, if_ind, Bool-cases, inl, inr, ltb, leb, ltb→lt, lt→ltb, leb→le, le→leb, ◌<◌,
}
use reframe_web.Voice.Vad.{VoiceActivityDecision}
use reframe_web.Voice.Segmenter.{UtteranceEvent}
use reframe_web.Voice.Mode.{ConversationMode, mode_eq, Controller}
use reframe_web.Voice.Capture.{
  CaptureResult, CaptureState, GateResult, PipelineConfig, Spotter, activation_window_expired,
  accept_speech_event, create_state, gate_accept, gate_start, replay_wake_audio,
  finish_with_utterance, finish_confirmation, listen_timed_out, close_spotters,
}
use reframe_web.Voice.Capture.Kept.{
  gate_accept-mode_switched, accept_speech_event-mode_switched, replay_wake_audio-mode_switched,
}
use reframe_web.Voice.Session.{
  resumed, confirmed, Session, Round, Progress, next, finished, raised, timed_out, interrupted,
  finish_controller, and_then, set_by_others, endpoint_is_final, sync_external_mode_change,
  sync_snapshot, emit_endpoint, emit_open, emit_final, mode_at_start, turn_finished, was_last,
  start_turn, end_turn, take_endpoint, gate_result, accept_keyphrase_frame, keyphrase_branch,
  handle_event, close_window, check_timeout, speech_branch, step, run_rounds,
}
use reframe_web.Voice.Session.Ledger.{resumes, confirms, snoc}
use reframe_web.Voice.Session.Sound.{
  IsSound, rest_lem, forget_lem, emit_open_lem, emit_final_lem, turn_finished_lem,
  mode_at_start_lem, sync_snapshot_lem,
}

last_lem :
    (max_turns before after : ℕ)
    → after ≡ before + 1
    → (ltb 0 max_turns && leb max_turns before) ≡ false
    → (ltb 0 max_turns && leb max_turns after) ≡ true
    → (0 < max_turns) × (after ≡ max_turns)
last_lem max_turns before after e below last =
    ground (
      arith,
      ltb→lt 0 max_turns,
      leb→le max_turns after,
      lt→ltb 0 max_turns,
      le→leb max_turns before,
    )

never_expires :
    {Sample Sp : Type 0} (st : CaptureState Sample Sp) (now : ℕ)
    → st.mode_switched ≡ false
    → activation_window_expired st now ≡ false
unfolding activation_window_expired
never_expires st now e =
    ap (λ b. b && (elim st.post_activation_deadline [ none ↦ false | some d ↦ leb d now ])) e

module _ {Sample Sp F D : Type 0} (spotter : Spotter Sample Sp) (config : PipelineConfig F)
    (new_detector : D) (detect : D → List Sample → D × VoiceActivityDecision F)
    (max_turns : ℕ) where
  -- Whatever becomes of a round, the events follow the protocol; the session goes on or raises below
  -- the bound on the turns, and returns at it.
  unfoldable pub IsGood : Progress (Session Sample Sp F D) → Type 0
  IsGood (next s) = IsSound 0 s × (was_last max_turns s ≡ false)
  IsGood (finished s) = IsSound 0 s × (0 < max_turns) × (s.completed_turns ≡ max_turns)
  IsGood (raised e s) = IsSound 0 s × (was_last max_turns s ≡ false)

  mode_at_start-completed_turns :
      (s : Session Sample Sp F D) (c : Option Controller)
      → (mode_at_start s c).completed_turns ≡ s.completed_turns
  unfolding mode_at_start
  mode_at_start-completed_turns s none = refl
  mode_at_start-completed_turns s (some c) = refl

  pub start_turn-completed_turns :
      (s : Session Sample Sp F D) (now : ℕ)
      → (start_turn spotter config new_detector detect max_turns s now).completed_turns
        ≡ s.completed_turns
  unfolding start_turn
  start_turn-completed_turns s now = mode_at_start-completed_turns s s.mode_controller

  pub start_turn_lem :
      (s : Session Sample Sp F D) (now : ℕ)
      → IsSound 0 s
      → IsSound 0 (start_turn spotter config new_detector detect max_turns s now)
  unfolding start_turn create_state gate_start
  start_turn_lem s now v =
      let s' : Session Sample Sp F D = mode_at_start s s.mode_controller in
      let st : CaptureState Sample Sp = create_state config s'.conversation_mode in
      rest_lem s' (start_turn spotter config new_detector detect max_turns s now) refl refl refl
        refl refl
        (if_ind (λ (x : CaptureState Sample Sp). x.mode_switched ≡ false) st.keyphrase_required
          (gate_start spotter config st) st (λ _. refl) (λ _. refl))
        (mode_at_start_lem s s.mode_controller v)

  finish_controller-completed_turns :
      (s : Session Sample Sp F D) (c : Option Controller) (mode : ConversationMode)
      → (finish_controller s c mode).completed_turns ≡ s.completed_turns
  unfolding finish_controller
  finish_controller-completed_turns s none mode = refl
  finish_controller-completed_turns s (some c) mode = refl

  turn_finished-completed_turns :
      (s : Session Sample Sp F D) (result : CaptureResult Sample)
      → (turn_finished s result).completed_turns ≡ s.completed_turns + 1
  unfolding turn_finished
  turn_finished-completed_turns s result =
      ap (λ n. n + 1)
        (finish_controller-completed_turns s s.mode_controller result.conversation_mode)

  end_turn_lem :
      (s : Session Sample Sp F D) (result : CaptureResult Sample) (now : ℕ)
      → IsSound 1 s
      → was_last max_turns s ≡ false
      → IsGood (end_turn spotter config new_detector detect max_turns s result now)
  unfolding end_turn IsGood
  end_turn_lem s result now v below =
      let s' : Session Sample Sp F D = turn_finished s result in
      let w : IsSound 0 s' = turn_finished_lem s result v in
      let t : Session Sample Sp F D = record s' { state = close_spotters s'.state } in
      if_ind IsGood (was_last max_turns s') (finished s')
        (next (start_turn spotter config new_detector detect max_turns t now))
        (λ last.
          let (some_turns, reached) =
            last_lem max_turns s.completed_turns s'.completed_turns
              (turn_finished-completed_turns s result) below last in
          (w, some_turns, reached))
        λ last. (
          start_turn_lem t now (rest_lem s' t refl refl refl refl refl w.no_window w),
          rw (start_turn-completed_turns t now) last,
        )

  take_endpoint_lem :
      (s : Session Sample Sp F D) (result : CaptureResult Sample) (now : ℕ)
      → IsSound 0 s
      → was_last max_turns s ≡ false
      → IsGood (take_endpoint spotter config new_detector detect max_turns s result now)
  unfolding take_endpoint emit_endpoint emit_open emit_final IsGood
  take_endpoint_lem s result now v below = elim (Bool-cases (endpoint_is_final config result)) [
    | inl final ↦
        rw final (end_turn_lem (emit_final s result) result now (emit_final_lem s result v) below)
    | inr waits ↦ rw waits (emit_open_lem s result v, below)
  ]

  resumed_lem :
      (s : Session Sample Sp F D) (turn : Option ℕ) (capture : Option (CaptureResult Sample))
      → s.pending_turn_id ≡ turn
      → s.pending_capture ≡ capture
      → IsSound 0 s
      → was_last max_turns s ≡ false
      → IsGood (
          next (elim turn [
            | none ↦ s
            | some id ↦ record s {
              events = s.events ++ resumed id ∷ [];
              pending_turn_id = none;
              pending_capture = none;
            }
          ]))
  unfolding IsGood
  resumed_lem s none capture e f v below = (v, below)
  resumed_lem s (some id) none e f v below = absurd cc
  resumed_lem s (some id) (some result) e f v below = (
    record {
      ledger = record v.ledger { open_turn = none };
      history = snoc (resumed id) v.history (resumes id result (v.held id result e f) refl refl);
      ids = v.ids;
      turns = v.turns;
      paired = refl;
      held = λ i c p q. cc;
      no_window = v.no_window;
    },
    below,
  )

  confirmed_lem :
      (s : Session Sample Sp F D) (id : ℕ) (result : CaptureResult Sample)
      → s.pending_turn_id ≡ some id
      → s.pending_capture ≡ some result
      → IsSound 0 s
      → IsSound 1 (record s {
        events = s.events ++ confirmed id result ∷ [];
        pending_turn_id = none;
        pending_capture = none;
      })
  confirmed_lem s id result e f v = record {
    ledger = record v.ledger { open_turn = none; ended = v.ledger.ended + 1 };
    history =
        snoc (confirmed id result) v.history (confirms id result (v.held id result e f) refl refl);
    ids = v.ids;
    turns = omega (arith, v.turns);
    paired = refl;
    held = λ i c p q. cc;
    no_window = v.no_window;
  }

  confirmed_cases :
      (s : Session Sample Sp F D) (turn : Option ℕ) (capture : Option (CaptureResult Sample))
      (now : ℕ)
      → s.pending_turn_id ≡ turn
      → s.pending_capture ≡ capture
      → IsSound 0 s
      → was_last max_turns s ≡ false
      → IsGood (elim turn [
        | none ↦ next s
        | some id ↦ elim capture [
          | none ↦ next s
          | some result ↦
              end_turn spotter config new_detector detect max_turns
                (record s {
                  events = s.events ++ confirmed id result ∷ [];
                  pending_turn_id = none;
                  pending_capture = none;
                })
                result
                now
        ]
      ])
  unfolding IsGood
  confirmed_cases s none capture now e f v below = (v, below)
  confirmed_cases s (some id) none now e f v below = (v, below)
  confirmed_cases s (some id) (some result) now e f v below =
      end_turn_lem _ result now (confirmed_lem s id result e f v) below

  handle_event_lem :
      (s : Session Sample Sp F D) (event : Option (UtteranceEvent Sample)) (now : ℕ)
      → IsSound 0 s
      → was_last max_turns s ≡ false
      → IsGood (handle_event spotter config new_detector detect max_turns s event now)
  unfolding handle_event IsGood
  handle_event_lem s none now v below = (v, below)
  handle_event_lem s (some (UtteranceEvent.endpoint u)) now v below =
      take_endpoint_lem s (finish_with_utterance s.state u s.listen_started_at now) now v below
  handle_event_lem s (some UtteranceEvent.resumed) now v below =
      resumed_lem s s.pending_turn_id s.pending_capture refl refl v below
  handle_event_lem s (some (UtteranceEvent.confirmed held)) now v below =
      confirmed_cases s s.pending_turn_id s.pending_capture now refl refl v below

  close_window_lem :
      (s : Session Sample Sp F D) (now : ℕ)
      → IsSound 0 s
      → was_last max_turns s ≡ false
      → IsGood (close_window spotter config new_detector detect max_turns now s)
  unfolding close_window IsGood
  close_window_lem s now v below =
      if_ind IsGood (activation_window_expired s.state now) _ (next s)
        (λ expired. absurd (cc (expired, never_expires s.state now v.no_window))) (λ _. (v, below))

  check_timeout_lem :
      (s : Session Sample Sp F D) (now : ℕ)
      → IsSound 0 s
      → was_last max_turns s ≡ false
      → IsGood (check_timeout spotter config new_detector detect max_turns now s)
  unfolding check_timeout IsGood
  check_timeout_lem s now v below =
      if_ind IsGood (listen_timed_out s.deadline s.state now) (raised timed_out s) (next s)
        (λ _. (v, below)) (λ _. (v, below))

  and_then_lem :
      (p : Progress (Session Sample Sp F D))
      (f : Session Sample Sp F D → Progress (Session Sample Sp F D))
      → ((s : Session Sample Sp F D) → IsSound 0 s → was_last max_turns s ≡ false → IsGood (f s))
      → IsGood p
      → IsGood (and_then p f)
  unfolding IsGood
  and_then_lem (next s) f k (v, below) = k s v below
  and_then_lem (finished s) f k good = good
  and_then_lem (raised e s) f k good = good

  speech_branch_lem :
      (s : Session Sample Sp F D) (frame : List Sample) (now : ℕ)
      → IsSound 0 s
      → was_last max_turns s ≡ false
      → IsGood (speech_branch spotter config new_detector detect max_turns s frame now)
  unfolding speech_branch
  speech_branch_lem s frame now v below =
      let (seg, st, event) = accept_speech_event detect s.segmenter s.state frame now in
      and_then_lem _ _
        (λ s1 v1 below1.
          and_then_lem _ _ (λ s2. check_timeout_lem s2 now) (close_window_lem s1 now v1 below1))
        (handle_event_lem (record s { segmenter = seg; state = st }) event now
          (rest_lem s _ refl refl refl refl refl
            (accept_speech_event-mode_switched detect s.segmenter s.state frame now ∙ v.no_window)
            v)
          below)

  gate_result_lem :
      (s : Session Sample Sp F D) (result : Option (GateResult Sample)) (now : ℕ)
      → IsSound 0 s
      → IsSound 0 (gate_result spotter config new_detector detect max_turns s result now).0
  unfolding gate_result
  gate_result_lem s none now v = v
  gate_result_lem s (some result) now v =
      let (seg, st, utterance) = replay_wake_audio detect s.segmenter s.state result.frames now in
      if_ind (λ (x : Session Sample Sp F D × Option (CaptureResult Sample)). IsSound 0 x.0)
        result.conversation_enabled
        (s, finish_confirmation config result s.state s.listen_started_at now)
        (
          record s { segmenter = seg; state = st },
          elim utterance [
            | none ↦ none
            | some u ↦ some (finish_with_utterance st u s.listen_started_at now)
          ],
        )
        (λ _. v)
        λ _.
          rest_lem s _ refl refl refl refl refl
            (replay_wake_audio-mode_switched detect s.segmenter s.state result.frames now
              ∙ v.no_window)
            v

  gate_result-completed_turns :
      (s : Session Sample Sp F D) (result : Option (GateResult Sample)) (now : ℕ)
      → (gate_result spotter config new_detector detect max_turns s result now).0.completed_turns
        ≡ s.completed_turns
  unfolding gate_result
  gate_result-completed_turns s none now = refl
  gate_result-completed_turns s (some result) now =
      if_ind
        (λ (x : Session Sample Sp F D × Option (CaptureResult Sample)).
          x.0.completed_turns ≡ s.completed_turns)
        result.conversation_enabled (s, _) (_, _) (λ _. refl) (λ _. refl)

  keyphrase_branch_lem :
      (heard : Session Sample Sp F D × Option (CaptureResult Sample)) (now : ℕ)
      → IsSound 0 heard.0
      → was_last max_turns heard.0 ≡ false
      → IsGood (keyphrase_branch spotter config new_detector detect max_turns heard now)
  unfolding keyphrase_branch IsGood
  keyphrase_branch_lem (s, none) now v below = (v, below)
  keyphrase_branch_lem (s, some result) now v below = take_endpoint_lem s result now v below

  keyphrase_lem :
      (s : Session Sample Sp F D) (frame : List Sample) (now : ℕ)
      → IsSound 0 s
      → was_last max_turns s ≡ false
      → IsGood (
          keyphrase_branch spotter config new_detector detect max_turns
            (accept_keyphrase_frame spotter config new_detector detect max_turns s frame now)
            now)
  unfolding accept_keyphrase_frame
  keyphrase_lem s frame now v below =
      let (st, result) = gate_accept spotter config s.state frame s.listen_started_at now in
      let t : Session Sample Sp F D = record s { state = st } in
      keyphrase_branch_lem (gate_result spotter config new_detector detect max_turns t result now)
        now
        (gate_result_lem t result now (
          rest_lem s t refl refl refl refl refl
            (gate_accept-mode_switched spotter config s.state frame s.listen_started_at now
              ∙ v.no_window)
            v))
        (rw (gate_result-completed_turns t result now) below)

  sync_snapshot-completed_turns :
      (s : Session Sample Sp F D) (c : Option Controller)
      → (sync_snapshot s c).0.completed_turns ≡ s.completed_turns
  unfolding sync_snapshot
  sync_snapshot-completed_turns s none = refl
  sync_snapshot-completed_turns s (some c) =
      let P : Session Sample Sp F D × Bool → Type 0 =
        λ x. x.0.completed_turns ≡ s.completed_turns in
      if_ind P (c.version == s.mode_version) (s, false) _ (λ _. refl)
        λ _.
          if_ind P (mode_eq c.mode s.state.conversation_mode)
            (record s { mode_version = c.version }, false)
            (record s { mode_version = c.version; conversation_mode = c.mode }, true) (λ _. refl)
            (λ _. refl)

  step_lem :
      (s : Session Sample Sp F D) (r : Round Sample)
      → IsSound 0 s
      → was_last max_turns s ≡ false
      → IsGood (step spotter config new_detector detect max_turns s r)
  unfolding step sync_external_mode_change IsGood
  step_lem s r v below =
      let s0 : Session Sample Sp F D = record s {
        mode_controller = set_by_others s.mode_controller r.modes_set;
      } in
      let v0 : IsSound 0 s0 = rest_lem s s0 refl refl refl refl refl v.no_window v in
      let s1 : Session Sample Sp F D = (sync_snapshot s0 s0.mode_controller).0 in
      let v1 : IsSound 0 s1 = sync_snapshot_lem s0 s0.mode_controller v0 in
      let below1 : was_last max_turns s1 ≡ false =
        rw (sync_snapshot-completed_turns s0 s0.mode_controller) below in
      let t : Session Sample Sp F D = record s1 {
        pending_turn_id = none;
        pending_capture = none;
        state = close_spotters s1.state;
      } in
      if_ind IsGood r.stopped (raised interrupted s0) _ (λ _. (v0, below))
        λ _.
          if_ind IsGood (sync_snapshot s0 s0.mode_controller).1
            (next (start_turn spotter config new_detector detect max_turns t r.now)) _
            (λ _. (
              start_turn_lem t r.now (
                  rest_lem (record s1 { pending_turn_id = none; pending_capture = none }) t refl
                    refl refl refl refl v1.no_window (forget_lem s1 v1)),
              rw (start_turn-completed_turns t r.now) below1,
            ))
            λ _.
              if_ind IsGood
                (s1.state.keyphrase_required && not (is_some s1.state.keyphrase_detection)) _ _
                (λ _. keyphrase_lem s1 r.frame r.now v1 below1)
                (λ _. speech_branch_lem s1 r.frame r.now v1 below1)

  rounds_cases :
      (p : Progress (Session Sample Sp F D)) (rs : List (Round Sample)) (stopped : Bool)
      → ((s : Session Sample Sp F D)
          → IsSound 0 s
          → was_last max_turns s ≡ false
          → IsGood (run_rounds spotter config new_detector detect max_turns s rs stopped))
      → IsGood p
      → IsGood (elim p [
        | next s ↦ run_rounds spotter config new_detector detect max_turns s rs stopped
        | finished s ↦ finished s
        | raised e s ↦ raised e s
      ])
  unfolding IsGood
  rounds_cases (next s) rs stopped k (v, below) = k s v below
  rounds_cases (finished s) rs stopped k good = good
  rounds_cases (raised e s) rs stopped k good = good

  pub run_rounds_lem :
      (s : Session Sample Sp F D) (rs : List (Round Sample)) (stopped : Bool)
      → IsSound 0 s
      → was_last max_turns s ≡ false
      → IsGood (run_rounds spotter config new_detector detect max_turns s rs stopped)
  unfolding run_rounds IsGood
  run_rounds_lem s [] stopped v below = (v, below)
  run_rounds_lem s (r ∷ rs) stopped v below =
      rounds_cases (step spotter config new_detector detect max_turns s r) rs stopped
        (λ s' v' below'. run_rounds_lem s' rs stopped v' below') (step_lem s r v below)
