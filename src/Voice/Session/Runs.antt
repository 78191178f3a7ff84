-- ===== src/Voice/Session/Runs.antt =====
-- Whole runs of the capture session, `run` of speculative_capture_session.py.
use reframe_web.Prelude.{
  ℕ, ◌≡◌, refl, sym, ◌∙◌, Bool, true, false, ◌&&◌, none, List, [], arith, ltb, leb, ltb→lt, lt→ltb,
  leb→le, le→leb, ◌<◌,
}
use reframe_web.Voice.Vad.{VoiceActivityDecision}
use reframe_web.Voice.Capture.{PipelineConfig, Spotter, close_spotters}
use reframe_web.Voice.Session.{
  Session, Round, Progress, next, finished, raised, session_of, was_last, start_turn, run_rounds,
  run,
}
use reframe_web.Voice.Session.Ledger.{Ledger, no_events, LegalAll, nil}
use reframe_web.Voice.Session.Sound.{IsSound, rest_lem}
use reframe_web.Voice.Session.Protocol.{
  IsGood, run_rounds_lem, start_turn_lem, start_turn-completed_turns,
}

-- A session that `__init__` has made.
pub record IsFresh {Sample Sp F D : Type 0} (s : Session Sample Sp F D) : Type 0 where
  pub no_events_yet : s.events ≡ []
  pub no_id_yet : s.turn_id ≡ 0
  pub no_turn_yet : s.completed_turns ≡ 0
  pub nothing_held : s.pending_turn_id ≡ none
  pub no_capture_held : s.pending_capture ≡ none
  pub not_switched : s.state.mode_switched ≡ false

unstarted_lem : (max_turns done : ℕ) → done ≡ 0 → (ltb 0 max_turns && leb max_turns done) ≡ false
unstarted_lem max_turns done e = ground (arith, ltb→lt 0 max_turns, leb→le max_turns done)

abbrev pub has_returned : {S : Type 0} → Progress S → Bool
has_returned (next s) = false
has_returned (finished s) = true
has_returned (raised e s) = false

-- How a run ends, for a bound on the turns: by returning at the bound, or by raising below it.
pub record EndsRight {Sample Sp F D : Type 0} (max_turns : ℕ) (p : Progress (Session Sample Sp F D))
    : Type 0 where
  pub ledger : Ledger Sample
  pub history : LegalAll no_events (session_of p).events ledger
  pub ids : ledger.last_id ≡ (session_of p).turn_id
  pub turns : ledger.ended ≡ (session_of p).completed_turns
  pub at_bound :
      has_returned p ≡ true → (0 < max_turns) × ((session_of p).completed_turns ≡ max_turns)
  pub below_bound :
      has_returned p ≡ false → 0 < max_turns → (session_of p).completed_turns < max_turns

module _ {Sample Sp F D : Type 0} where
  fresh_lem : (s : Session Sample Sp F D) → IsFresh s → IsSound 0 s
  fresh_lem s f = record {
    ledger = no_events;
    history = rw f.no_events_yet nil;
    ids = sym f.no_id_yet;
    turns = omega (arith, f.no_turn_yet);
    paired = cc (f.nothing_held, f.no_capture_held);
    held = λ id result p q. absurd (cc (p, f.nothing_held));
    no_window = f.not_switched;
  }

  ends_lem :
      (max_turns : ℕ) (p : Progress (Session Sample Sp F D)) (owed : IsSound 0 (session_of p))
      → (has_returned p ≡ true → (0 < max_turns) × ((session_of p).completed_turns ≡ max_turns))
      → (has_returned p ≡ false → was_last max_turns (session_of p) ≡ false)
      → EndsRight max_turns p
  ends_lem max_turns p v returned others = record {
    ledger = v.ledger;
    history = v.history;
    ids = v.ids;
    turns = omega (arith, v.turns);
    at_bound = returned;
    below_bound = λ e h.
        ground
          (arith, others e, lt→ltb 0 max_turns h, le→leb max_turns (session_of p).completed_turns);
  }

module _ {Sample Sp F D : Type 0} (spotter : Spotter Sample Sp) (config : PipelineConfig F)
    (new_detector : D) (detect : D → List Sample → D × VoiceActivityDecision F)
    (max_turns : ℕ) where
  closed_lem :
      (p : Progress (Session Sample Sp F D))
      → IsGood spotter config new_detector detect max_turns p
      → EndsRight max_turns (elim p [
        | next s' ↦ next s'
        | finished s' ↦ finished (record s' { state = close_spotters s'.state })
        | raised e s' ↦ raised e (record s' { state = close_spotters s'.state })
      ])
  unfolding IsGood
  closed_lem (next s) (v, below) = ends_lem max_turns _ v (λ e. absurd cc) (λ _. below)
  closed_lem (finished s) (v, some_turns, reached) =
      ends_lem max_turns (finished (record s { state = close_spotters s.state }))
        (rest_lem s (record s { state = close_spotters s.state }) refl refl refl refl refl
          v.no_window v)
        (λ _. (some_turns, reached)) (λ e. absurd cc)
  closed_lem (raised e s) (v, below) =
      ends_lem max_turns (raised e (record s { state = close_spotters s.state }))
        (rest_lem s (record s { state = close_spotters s.state }) refl refl refl refl refl
          v.no_window v)
        (λ e. absurd cc) (λ _. below)

  -- For any spotter, detector and frames, whatever modes others set and whenever the stop event comes:
  -- the events of a run from a fresh session follow the protocol of `Ledger` (turn ids count up from 1;
  -- a turn is resumed or confirmed only while its endpoint is the last one open, and with that
  -- endpoint's capture; no other event occurs), the turns confirmed are the turns counted, and the run
  -- returns only at `max_turns` turns, for a positive `max_turns`, and raises only below it.
  pub run_protocol :
      (s : Session Sample Sp F D) (now : ℕ) (rs : List (Round Sample)) (stopped : Bool)
      → IsFresh s
      → EndsRight max_turns (run spotter config new_detector detect max_turns s now rs stopped)
  unfolding run
  run_protocol s now rs stopped f =
      let t : Session Sample Sp F D =
        start_turn spotter config new_detector detect max_turns s now in
      closed_lem (run_rounds spotter config new_detector detect max_turns t rs stopped) (
        run_rounds_lem spotter config new_detector detect max_turns t rs stopped
          (start_turn_lem spotter config new_detector detect max_turns s now (fresh_lem s f))
          (unstarted_lem max_turns t.completed_turns (
            start_turn-completed_turns spotter config new_detector detect max_turns s now
            ∙ f.no_turn_yet)))
