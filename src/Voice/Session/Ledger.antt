-- ===== src/Voice/Session/Ledger.antt =====
-- The protocol of the capture events: what their reader may rely on.
use reframe_web.Prelude.{ℕ, ◌+◌, ◌≡◌, Option, none, some, List, [], ◌∷◌, ◌++◌}
use reframe_web.Voice.Capture.{CaptureResult}
use reframe_web.Voice.Session.{CaptureEvent, endpoint, resumed, confirmed}

-- What a reader knows after some events: the last turn id, the turn whose endpoint is still open with
-- its capture, and the number of turns that ended.
pub record Ledger (Sample : Type 0) : Type 0 where
  pub last_id : ℕ
  pub open_turn : Option (ℕ × CaptureResult Sample)
  pub ended : ℕ

module _ {Sample : Type 0} where
  abbrev pub no_events : Ledger Sample
  no_events = record { last_id = 0; open_turn = none; ended = 0 }

  -- The specification of one event: turn ids count up from 1, a turn is resumed or confirmed only
  -- while it is the open one, and a confirmed turn keeps the capture of its endpoint.
  pub data Legal (l : Ledger Sample) (e : CaptureEvent Sample) (m : Ledger Sample) : Type 0 where
    opens :
        (id : ℕ) (result : CaptureResult Sample)
        → id ≡ l.last_id + 1
        → e ≡ endpoint id result
        → m ≡ record l { last_id = id; open_turn = some (id, result) }
        → Legal l e m
    resumes :
        (id : ℕ) (result : CaptureResult Sample)
        → l.open_turn ≡ some (id, result)
        → e ≡ resumed id
        → m ≡ record l { open_turn = none }
        → Legal l e m
    confirms :
        (id : ℕ) (result : CaptureResult Sample)
        → l.open_turn ≡ some (id, result)
        → e ≡ confirmed id result
        → m ≡ record l { open_turn = none; ended = l.ended + 1 }
        → Legal l e m

  pub data LegalAll (l : Ledger Sample) : List (CaptureEvent Sample) → Ledger Sample → Type 0 where
    nil : LegalAll l [] l
    snoc :
        {es : List (CaptureEvent Sample)} {m n : Ledger Sample} (e : CaptureEvent Sample)
        → LegalAll l es m
        → Legal m e n
        → LegalAll l (es ++ e ∷ []) n
