-- ===== src/Voice/TurnControl.antt =====
-- `VoiceTurnControl` of agent-host/src/reframe_agent_host/voice/capture_types.py. While a turn
-- waits, the event loop runs others, which may cancel or commit it: a schedule is the list of what
-- happens between two moments at which the waiting task can run again.
use reframe_web.Prelude.{
  ℕ, ◌-◌, ◌≡◌, ◌≢◌, Bool, true, false, ◌||◌, Option, none, some, List, [], ◌∷◌, arith, leb,
  if◌then◌else◌,
}

pub record TurnControl : Type 0 where
  pub cancelled : Bool
  pub committed : Bool

abbrev pub create_control : TurnControl
create_control = record { cancelled = false; committed = false }

abbrev pub cancel : TurnControl → TurnControl
cancel c = record c { cancelled = true }

abbrev pub commit : TurnControl → TurnControl
commit c = record c { committed = true }

-- What the others did before the task could run again, and how long that took.
pub record Pause : Type 0 where
  pub cancels : Bool
  pub commits : Bool
  pub elapsed : ℕ

abbrev pub after_pause : TurnControl → Pause → TurnControl
after_pause c p = record {
  cancelled = c.cancelled || p.cancels;
  committed = c.committed || p.commits;
}

-- A coroutine raises `CancelledError`, returns, or still waits where the schedule ends.
pub data Outcome {ℓ} (A : Type ℓ) : Type ℓ where
  returned : A → Outcome A
  cancelled_error : Outcome A
  waiting : Outcome A

unfoldable pub checkpoint {ℓ} : {A : Type ℓ} → TurnControl → A → Outcome A
checkpoint c a = if c.cancelled then cancelled_error else returned a

-- `asyncio.wait` on both events, with `left` ticks to the timeout, if there is one.
expired : Option ℕ → ℕ → Bool
expired none elapsed = false
expired (some left) elapsed = leb left elapsed

remaining : Option ℕ → ℕ → Option ℕ
remaining none elapsed = none
remaining (some left) elapsed = some (left - elapsed)

-- `_wait`: the control when the wait ended, with the rest of the schedule and the outcome
unfoldable pub wait : Option ℕ → TurnControl → List Pause → TurnControl × List Pause × Outcome Bool
unfolding expired remaining
wait timeout c [] = (c, [], waiting)
wait timeout c (p ∷ ps) =
    let c' = after_pause c p in
    let rest = wait (remaining timeout p.elapsed) c' ps in
    if c'.cancelled
    then (c', ps, cancelled_error)
    else if c'.committed
    then (c', ps, checkpoint c' true)
    else if expired timeout p.elapsed
    then (c', ps, checkpoint c' false)
    else rest

-- An event that is already set ends the wait at once.
unfoldable pub wait_for_commit_or_cancel :
    ℕ → TurnControl → List Pause → TurnControl × List Pause × Outcome Bool
wait_for_commit_or_cancel timeout c ps =
    if c.committed
    then (c, ps, checkpoint c true)
    else if c.cancelled
    then (c, ps, cancelled_error)
    else wait (some timeout) c ps

unfoldable pub wait_until_committed :
    TurnControl → List Pause → TurnControl × List Pause × Outcome Bool
wait_until_committed c ps =
    if c.committed
    then (c, ps, checkpoint c true)
    else if c.cancelled
    then (c, ps, cancelled_error)
    else wait none c ps

wait_sound :
    (timeout : Option ℕ) (c : TurnControl) (ps : List Pause) (b : Bool)
    → (wait timeout c ps).2 ≡ returned b
    → ((wait timeout c ps).0.cancelled ≡ false) × ((wait timeout c ps).0.committed ≡ b)
unfolding wait checkpoint
wait_sound timeout c [] b e = cc
wait_sound timeout c (p ∷ ps) b e =
    ground (arith, wait_sound (remaining timeout p.elapsed) (after_pause c p) ps b)

no_timeout : (c : TurnControl) (ps : List Pause) → (wait none c ps).2 ≢ returned false
unfolding wait checkpoint
no_timeout c [] e = cc
no_timeout c (p ∷ ps) e = ground (arith, no_timeout (after_pause c p) ps)

-- A turn goes on from `wait_until_committed` only when it has been committed and not cancelled.
pub wait_until_committed_safe :
    (c : TurnControl) (ps : List Pause) (b : Bool)
    → (wait_until_committed c ps).2 ≡ returned b
    → ((wait_until_committed c ps).0.committed ≡ true)
      × ((wait_until_committed c ps).0.cancelled ≡ false)
unfolding wait_until_committed checkpoint
wait_until_committed_safe c ps b e = ground (arith, wait_sound none c ps b, no_timeout c ps)
