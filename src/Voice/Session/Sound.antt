-- ===== src/Voice/Session/Sound.antt =====
-- Every round of the capture session keeps the protocol of its events.
use reframe_web.Prelude.{
  ℕ, ◌+◌, ◌≡◌, refl, ap, sym, ◌∙◌, Bool, true, false, Option, none, some, ◌==◌, is_some, arith,
  if_ind,
}
use reframe_web.Voice.Mode.{ConversationMode, mode_eq, Controller}
use reframe_web.Voice.Capture.{CaptureResult}
use reframe_web.Voice.Session.{
  endpoint, confirmed, Session, emit_open, emit_final, finish_controller, mode_at_start,
  sync_snapshot, turn_finished,
}
use reframe_web.Voice.Session.Ledger.{Ledger, no_events, opens, confirms, LegalAll, snoc}

opened_ledger : {Sample : Type 0} → Ledger Sample → ℕ → CaptureResult Sample → Ledger Sample
opened_ledger l id result = record l { last_id = id; open_turn = some (id, result) }

module _ {Sample Sp F D : Type 0} where
  -- The events so far follow the protocol, and the session's variables are what the protocol says:
  -- `owed` turns have been confirmed that `turn_finished` has not counted yet.
  pub record IsSound (owed : ℕ) (s : Session Sample Sp F D) : Type 0 where
    pub ledger : Ledger Sample
    pub history : LegalAll no_events s.events ledger
    pub ids : ledger.last_id ≡ s.turn_id
    pub turns : ledger.ended ≡ s.completed_turns + owed
    pub paired : is_some s.pending_turn_id ≡ is_some s.pending_capture
    pub held :
        (id : ℕ) (result : CaptureResult Sample)
        → s.pending_turn_id ≡ some id
        → s.pending_capture ≡ some result
        → ledger.open_turn ≡ some (id, result)
    pub no_window : s.state.mode_switched ≡ false

  -- What no part of the protocol depends on may change.
  pub rest_lem :
      {owed : ℕ} (s t : Session Sample Sp F D)
      → t.events ≡ s.events
      → t.turn_id ≡ s.turn_id
      → t.completed_turns ≡ s.completed_turns
      → t.pending_turn_id ≡ s.pending_turn_id
      → t.pending_capture ≡ s.pending_capture
      → t.state.mode_switched ≡ false
      → IsSound owed s
      → IsSound owed t
  rest_lem {owed} s t events ids turns pending capture window v = record {
    ledger = v.ledger;
    history = rw events v.history;
    ids = v.ids ∙ sym ids;
    turns = v.turns ∙ ap (λ n. n + owed) (sym turns);
    paired = cc (pending, capture, v.paired);
    held = λ id result p q. v.held id result (sym pending ∙ p) (sym capture ∙ q);
    no_window = window;
  }

  -- A held turn may be forgotten.
  pub forget_lem :
      {owed : ℕ} (s : Session Sample Sp F D)
      → IsSound owed s
      → IsSound owed (record s { pending_turn_id = none; pending_capture = none })
  forget_lem s v = record {
    ledger = v.ledger;
    history = v.history;
    ids = v.ids;
    turns = v.turns;
    paired = refl;
    held = λ id result p q. cc;
    no_window = v.no_window;
  }

  pub emit_open_lem :
      (s : Session Sample Sp F D) (result : CaptureResult Sample)
      → IsSound 0 s
      → IsSound 0 (emit_open s result)
  unfolding emit_open opened_ledger
  emit_open_lem s result v = record {
    ledger = opened_ledger v.ledger (s.turn_id + 1) result;
    history =
        snoc (endpoint (s.turn_id + 1) result) v.history
          (opens (s.turn_id + 1) result (ap (λ n. n + 1) (sym v.ids)) refl refl);
    ids = refl;
    turns = v.turns;
    paired = refl;
    held = λ i c p q. cc;
    no_window = v.no_window;
  }

  pub emit_final_lem :
      (s : Session Sample Sp F D) (result : CaptureResult Sample)
      → IsSound 0 s
      → IsSound 1 (emit_final s result)
  unfolding emit_final emit_open
  emit_final_lem s result v =
      let w : IsSound 0 (emit_open s result) = emit_open_lem s result v in
      record {
        ledger = record w.ledger { open_turn = none; ended = w.ledger.ended + 1 };
        history =
            snoc (confirmed (s.turn_id + 1) result) w.history
              (confirms (s.turn_id + 1) result (w.held (s.turn_id + 1) result refl refl) refl refl);
        ids = w.ids;
        turns = omega (arith, w.turns);
        paired = refl;
        held = λ i c p q. cc;
        no_window = v.no_window;
      }

  finish_controller_lem :
      (s : Session Sample Sp F D) (c : Option Controller) (mode : ConversationMode)
      → IsSound 1 s
      → IsSound 1 (finish_controller s c mode)
  unfolding finish_controller
  finish_controller_lem s none mode v = rest_lem s _ refl refl refl refl refl v.no_window v
  finish_controller_lem s (some c) mode v = rest_lem s _ refl refl refl refl refl v.no_window v

  -- A confirmed turn is counted.
  pub turn_finished_lem :
      (s : Session Sample Sp F D) (result : CaptureResult Sample)
      → IsSound 1 s
      → IsSound 0 (turn_finished s result)
  unfolding turn_finished
  turn_finished_lem s result v =
      let w : IsSound 1 (finish_controller s s.mode_controller result.conversation_mode) =
        finish_controller_lem s s.mode_controller result.conversation_mode v in
      record {
        ledger = w.ledger;
        history = w.history;
        ids = w.ids;
        turns = omega (arith, w.turns);
        paired = w.paired;
        held = w.held;
        no_window = w.no_window;
      }

  pub mode_at_start_lem :
      {owed : ℕ} (s : Session Sample Sp F D) (c : Option Controller)
      → IsSound owed s
      → IsSound owed (mode_at_start s c)
  unfolding mode_at_start
  mode_at_start_lem s none v = v
  mode_at_start_lem s (some c) v = rest_lem s _ refl refl refl refl refl v.no_window v

  pub sync_snapshot_lem :
      {owed : ℕ} (s : Session Sample Sp F D) (c : Option Controller)
      → IsSound owed s
      → IsSound owed (sync_snapshot s c).0
  unfolding sync_snapshot
  sync_snapshot_lem s none v = v
  sync_snapshot_lem {owed} s (some c) v =
      let P : Session Sample Sp F D × Bool → Type 0 = λ x. IsSound owed x.0 in
      if_ind P (c.version == s.mode_version) (s, false) _ (λ _. v)
        λ _.
          if_ind P (mode_eq c.mode s.state.conversation_mode)
            (record s { mode_version = c.version }, false)
            (record s { mode_version = c.version; conversation_mode = c.mode }, true)
            (λ _. rest_lem s _ refl refl refl refl refl v.no_window v)
            (λ _. rest_lem s _ refl refl refl refl refl v.no_window v)
