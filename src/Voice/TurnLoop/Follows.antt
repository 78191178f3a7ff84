-- ===== src/Voice/TurnLoop/Follows.antt =====
-- The event loop follows the protocol of the capture events.
use reframe_web.Prelude.{
  ℕ, ◌+◌, ◌≡◌, refl, ap, sym, subst, ◌∙◌, Bool, true, false, not, Option, none, some, List, [], ◌∷◌,
  ◌++◌, if◌then◌else◌, All, length, length-append, append-nil, ==_refl, if_ind, arith,
}
use reframe_web.Voice.Mode.{Controller}
use reframe_web.Voice.TurnControl.{create_control, commit}
use reframe_web.Voice.Capture.{CaptureResult}
use reframe_web.Voice.Session.{CaptureEvent, endpoint, resumed, confirmed, mode_switch}
use reframe_web.Voice.Session.Ledger.{
  Ledger, no_events, Legal, opens, resumes, confirms, LegalAll, nil, snoc,
}
use reframe_web.Voice.TurnLoop.{
  Turn, Loop, create, cancel_turn, on_control, release, start_turn, is_active, handle, handle_all,
}

is_active_lem : (id : ℕ) (active : Option ℕ) → active ≡ some id → is_active id active ≡ true
is_active_lem id active e = ap (is_active id) e ∙ ==_refl id

module _ {Sample : Type 0} where
  -- The specification: the captures that some events confirm, and those of the committed turns.
  abbrev pub confirmed_captures : List (CaptureEvent Sample) → List (CaptureResult Sample)
  confirmed_captures [] = []
  confirmed_captures (confirmed id capture ∷ es) = capture ∷ confirmed_captures es
  confirmed_captures (e ∷ es) = confirmed_captures es

  abbrev pub is_committed : Turn Sample → Bool
  is_committed t = elim t.control [ none ↦ true | some c ↦ c.committed ]

  abbrev pub is_cancelled : Turn Sample → Bool
  is_cancelled t = elim t.control [ none ↦ false | some c ↦ c.cancelled ]

  abbrev pub committed_captures : List (Turn Sample) → List (CaptureResult Sample)
  committed_captures [] = []
  committed_captures (t ∷ ts) =
      let rest = committed_captures ts in if is_committed t then t.capture ∷ rest else rest

  -- A released turn was either committed or cancelled, and its task was cancelled with its control.
  abbrev pub IsSettled : Turn Sample → Type 0
  IsSettled t = (is_cancelled t ≡ not (is_committed t)) × (t.task_cancelled ≡ is_cancelled t)

  -- Nothing has decided on the active turn yet.
  abbrev pub IsUndecided : Option (Turn Sample) → Type 0
  IsUndecided none = Unit {0}
  IsUndecided (some t) = (t.control ≡ some create_control) × (t.task_cancelled ≡ false)

  -- The active turn is the one whose endpoint is open.
  abbrev pub IsOpen : Option (ℕ × CaptureResult Sample) → Loop Sample → Type 0
  IsOpen none s = (s.active_turn_id ≡ none) × (s.active ≡ none)
  IsOpen (some (id, capture)) s =
      (s.active_turn_id ≡ some id)
      × (s.active_capture ≡ some capture)
      × (t : Turn Sample) × (s.active ≡ some t)
      × (t.capture ≡ capture)
      × IsUndecided (some t)

  pub record Follows (es : List (CaptureEvent Sample)) (l : Ledger Sample) (s : Loop Sample)
      : Type 0 where
    pub active : IsOpen l.open_turn s
    pub settled : All IsSettled s.released
    pub committed : committed_captures s.released ≡ confirmed_captures es

  handle_all-snoc :
      (n : ℕ) (s : Loop Sample) (es : List (CaptureEvent Sample)) (e : CaptureEvent Sample)
      → handle_all n s (es ++ e ∷ []) ≡ handle n (handle_all n s es) e
  unfolding handle_all
  handle_all-snoc n s [] e = refl
  handle_all-snoc n s (e' ∷ es) e = handle_all-snoc n (handle n s e') es e

  confirmed_captures-append :
      (es fs : List (CaptureEvent Sample))
      → confirmed_captures (es ++ fs) ≡ confirmed_captures es ++ confirmed_captures fs
  confirmed_captures-append [] fs = refl
  confirmed_captures-append (endpoint id c ∷ es) fs = confirmed_captures-append es fs
  confirmed_captures-append (resumed id ∷ es) fs = confirmed_captures-append es fs
  confirmed_captures-append (confirmed id c ∷ es) fs = ap (◌∷◌ c) (confirmed_captures-append es fs)
  confirmed_captures-append (mode_switch id c ∷ es) fs = confirmed_captures-append es fs

  committed_captures-append :
      (ts us : List (Turn Sample))
      → committed_captures (ts ++ us) ≡ committed_captures ts ++ committed_captures us
  committed_captures-append [] us = refl
  committed_captures-append (t ∷ ts) us = ground (arith, committed_captures-append ts us)

  All-snoc :
      (ts : List (Turn Sample)) (t : Turn Sample)
      → All IsSettled ts
      → IsSettled t
      → All IsSettled (ts ++ t ∷ [])
  All-snoc [] t h k = (k, tt)
  All-snoc (u ∷ ts) t (h, hs) k = (h, All-snoc ts t hs k)

  undecided_lem :
      (o : Option (ℕ × CaptureResult Sample)) (s : Loop Sample) → IsOpen o s → IsUndecided s.active
  undecided_lem none s (_, e) = subst IsUndecided (sym e) tt
  undecided_lem (some (id, capture)) s (_, _, t, e, _, u) = subst IsUndecided (sym e) u

  -- Cancelling the active turn settles it and commits nothing.
  release-cancel :
      (active : Option (Turn Sample)) (released : List (Turn Sample))
      → IsUndecided active
      → All IsSettled released
      → All IsSettled (release cancel_turn active released)
        × (committed_captures (release cancel_turn active released) ≡ committed_captures released)
  release-cancel none released u h = (h, refl)
  release-cancel (some t) released (e, f) h = (
    All-snoc released (cancel_turn t) h (cc e, cc e),
    cc (
      e,
      committed_captures-append released (cancel_turn t ∷ []),
      append-nil (committed_captures released),
    ),
  )

  -- Committing it settles it and adds its capture.
  release-commit :
      (t : Turn Sample) (released : List (Turn Sample))
      → IsUndecided (some t)
      → All IsSettled released
      → All IsSettled (release (on_control commit) (some t) released)
        × (committed_captures (release (on_control commit) (some t) released)
            ≡ committed_captures released ++ t.capture ∷ [])
  release-commit t released (e, f) h = (
    All-snoc released (on_control commit t) h (cc (e, f), cc (e, f)),
    cc (e, committed_captures-append released (on_control commit t ∷ [])),
  )

  extend_none :
      (es : List (CaptureEvent Sample)) (e : CaptureEvent Sample) {cs : List (CaptureResult Sample)}
      → confirmed_captures (e ∷ []) ≡ []
      → cs ≡ confirmed_captures es
      → cs ≡ confirmed_captures (es ++ e ∷ [])
  extend_none es e f g =
      cc (f, g, confirmed_captures-append es (e ∷ []), append-nil (confirmed_captures es))

  endpoint_lem :
      (n : ℕ) {es : List (CaptureEvent Sample)} {l : Ledger Sample} (s : Loop Sample) (id : ℕ)
      (capture : CaptureResult Sample)
      → Follows es l s
      → Follows
          (es ++ endpoint id capture ∷ [])
          (record l { last_id = id; open_turn = some (id, capture) })
          (handle n s (endpoint id capture))
  unfolding handle start_turn
  endpoint_lem n {es} {l} s id capture v =
      let (settled, committed) =
        release-cancel s.active s.released (undecided_lem l.open_turn s v.active) v.settled in
      record {
        active = (refl, refl, _, refl, refl, (refl, refl));
        settled = settled;
        committed = extend_none es (endpoint id capture) refl (committed ∙ v.committed);
      }

  resumed_lem :
      (n : ℕ) {es : List (CaptureEvent Sample)} {l : Ledger Sample} (s : Loop Sample) (id : ℕ)
      (capture : CaptureResult Sample)
      → l.open_turn ≡ some (id, capture)
      → Follows es l s
      → Follows (es ++ resumed id ∷ []) (record l { open_turn = none }) (handle n s (resumed id))
  unfolding handle
  resumed_lem n {es} {l} s id capture f v =
      let is_open : IsOpen (some (id, capture)) s = subst (λ o. IsOpen o s) f v.active in
      let (settled, committed) =
        release-cancel s.active s.released (undecided_lem l.open_turn s v.active) v.settled in
      if_ind (Follows (es ++ resumed id ∷ []) (record l { open_turn = none }))
        (is_active id s.active_turn_id)
        (record s {
          active_turn_id = none;
          active_capture = none;
          active = none;
          released = release cancel_turn s.active s.released;
          cancellations = s.cancellations + 1;
        })
        s
        (λ _. record {
          active = (refl, refl);
          settled = settled;
          committed = extend_none es (resumed id) refl (committed ∙ v.committed);
        })
        λ other. absurd (cc (other, is_active_lem id s.active_turn_id is_open.0))

  confirmed_lem :
      (n : ℕ) {es : List (CaptureEvent Sample)} {l : Ledger Sample} (s : Loop Sample) (id : ℕ)
      (capture : CaptureResult Sample)
      → l.open_turn ≡ some (id, capture)
      → Follows es l s
      → Follows
          (es ++ confirmed id capture ∷ [])
          (record l { open_turn = none; ended = l.ended + 1 })
          (handle n s (confirmed id capture))
  unfolding handle
  confirmed_lem n {es} {l} s id capture f v =
      let (e, _, t, g, h, u) = subst (λ o. IsOpen o s) f v.active in
      let (settled, committed) = release-commit t s.released u v.settled in
      let released : release (if is_active id s.active_turn_id then on_control commit else λ t. t)
            s.active s.released
          ≡ release (on_control commit) (some t) s.released =
        cc (g, is_active_lem id s.active_turn_id e) in
      record {
        active = (refl, refl);
        settled = subst (All IsSettled) (sym released) settled;
        committed = cc (
          released,
          committed,
          h,
          v.committed,
          confirmed_captures-append es (confirmed id capture ∷ []),
        );
      }

  handle_lem :
      (n : ℕ) {es : List (CaptureEvent Sample)} {l m : Ledger Sample} (s : Loop Sample)
      (e : CaptureEvent Sample)
      → Legal l e m
      → Follows es l s
      → Follows (es ++ e ∷ []) m (handle n s e)
  handle_lem n {es} s e (opens id capture f g h) v = rw h (rw g (endpoint_lem n s id capture v))
  handle_lem n {es} s e (resumes id capture f g h) v = rw h (rw g (resumed_lem n s id capture f v))
  handle_lem n {es} s e (confirms id capture f g h) v =
      rw h (rw g (confirmed_lem n s id capture f v))

  count_lem :
      (es : List (CaptureEvent Sample)) (e : CaptureEvent Sample)
      → length (confirmed_captures (es ++ e ∷ []))
        ≡ length (confirmed_captures es) + length (confirmed_captures (e ∷ []))
  count_lem es e =
      ap length (confirmed_captures-append es (e ∷ []))
      ∙ length-append (confirmed_captures es) (confirmed_captures (e ∷ []))

  pub ended-length :
      {es : List (CaptureEvent Sample)} {l : Ledger Sample}
      → LegalAll no_events es l
      → l.ended ≡ length (confirmed_captures es)
  ended-length nil = refl
  ended-length (snoc {es} {m} e h (opens id c f g k)) = omega (
    arith,
    ap (λ l. l.ended) k,
    ended-length h,
    count_lem es e,
    ap (λ e. length (confirmed_captures (e ∷ []))) g,
  )
  ended-length (snoc {es} e h (resumes id c f g k)) = omega (
    arith,
    ap (λ l. l.ended) k,
    ended-length h,
    count_lem es e,
    ap (λ e. length (confirmed_captures (e ∷ []))) g,
  )
  ended-length (snoc {es} e h (confirms id c f g k)) = omega (
    arith,
    ap (λ l. l.ended) k,
    ended-length h,
    count_lem es e,
    ap (λ e. length (confirmed_captures (e ∷ []))) g,
  )

  pub follows_lem :
      (n : ℕ) (c : Controller) {es : List (CaptureEvent Sample)} {l : Ledger Sample}
      → LegalAll no_events es l
      → Follows es l (handle_all n (create c) es)
  unfolding handle_all create
  follows_lem n c nil = record { active = (refl, refl); settled = tt; committed = refl }
  follows_lem n c (snoc {es} e h k) =
      subst (Follows (es ++ e ∷ []) _) (sym (handle_all-snoc n (create c) es e))
        (handle_lem n (handle_all n (create c) es) e k (follows_lem n c h))
