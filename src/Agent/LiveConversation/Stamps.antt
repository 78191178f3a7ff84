-- ===== src/Agent/LiveConversation/Stamps.antt =====
-- The times of the live messages name them.
use reframe_web.Prelude.{
  ℕ, ◌+◌, ◌≤◌, ◌<◌, ◌≡◌, refl, ap, ◌==◌, ==_refl, ==_iff, leb, false, Option, none, some, List, [],
  ◌∷◌, ◌++◌, if_ind, All, arith,
}
use reframe_web.Tasks.Payloads.{Text, literal}
use reframe_web.Agent.LiveConversation.{
  text_eq, clean, LiveMessage, Live, next_captured_at, append_message, add_clean, add_message,
  discard, resolve_human_reply,
}

abbrev pub Before : Option ℕ → ℕ → Type 0
Before none t = ⊥
Before (some last) t = t ≤ last

abbrev pub IsIncreasing : List LiveMessage → Type 0
IsIncreasing [] = Unit {0}
IsIncreasing (m ∷ ms) = All (λ m'. m.captured_at < m'.captured_at) ms × IsIncreasing ms

-- The messages stand in the order of their times, all different, and no time is after the last one.
pub record IsTimed (s : Live) : Type 0 where
  pub increasing : IsIncreasing s.messages
  pub messages_before : All (λ m. Before s.last_captured_at m.captured_at) s.messages
  pub active_before : All (Before s.last_captured_at) s.active_human_replies

leb_lem : (a b : ℕ) → leb a b ≡ false → b < a
leb_lem a b e = ground arith

next_lem : (last : Option ℕ) (now t : ℕ) → Before last t → t < next_captured_at last now
unfolding next_captured_at
next_lem none now t h = absurd h
next_lem (some last) now t h =
    if_ind (λ n. t < n) (leb now last) (last + 1) now (λ _. omega (arith, h))
      (λ e. let q = leb_lem now last e in omega (arith, h, q))

All-snoc {ℓ} :
    {A : Type ℓ} (P : A → Type 0) (xs : List A) (x : A) → All P xs → P x → All P (xs ++ x ∷ [])
All-snoc P [] x h k = (k, tt)
All-snoc P (y ∷ xs) x (h, hs) k = (h, All-snoc P xs x hs k)

snoc_lem :
    (ms : List LiveMessage) (m : LiveMessage)
    → IsIncreasing ms
    → All (λ m'. m'.captured_at < m.captured_at) ms
    → IsIncreasing (ms ++ m ∷ [])
snoc_lem [] m h k = (tt, tt)
snoc_lem (m' ∷ ms) m (h, hs) (k, ks) =
    (All-snoc (λ x. m'.captured_at < x.captured_at) ms m h k, snoc_lem ms m hs ks)

All-map {ℓ} :
    {A : Type ℓ} (P Q : A → Type 0) (xs : List A) → ((x : A) → P x → Q x) → All P xs → All Q xs
All-map P Q [] f h = tt
All-map P Q (x ∷ xs) f (h, hs) = (f x h, All-map P Q xs f hs)

append_message-IsTimed :
    (s : Live) (now c : ℕ) (role content : Text)
    → IsTimed s
    → IsTimed (append_message s now c role content)
unfolding append_message
append_message-IsTimed s now c role content v =
    let t : ℕ = next_captured_at s.last_captured_at now in
    let later : (x : ℕ) → Before s.last_captured_at x → x < t =
      λ x h. next_lem s.last_captured_at now x h in
    let kept : (x : ℕ) → Before s.last_captured_at x → x ≤ t =
      λ x h. let q = later x h in omega (arith, q) in
    record {
      increasing = snoc_lem s.messages _ v.increasing (
          All-map (λ m. Before s.last_captured_at m.captured_at) (λ m. m.captured_at < t) s.messages
            (λ m h. later m.captured_at h) v.messages_before);
      messages_before =
          All-snoc (λ m. m.captured_at ≤ t) s.messages _
            (All-map (λ m. Before s.last_captured_at m.captured_at) (λ m. m.captured_at ≤ t)
              s.messages (λ m h. kept m.captured_at h) v.messages_before)
            (omega arith);
      active_before =
          let olds : All (λ x. x ≤ t) s.active_human_replies =
            All-map (Before s.last_captured_at) (λ x. x ≤ t) s.active_human_replies kept
              v.active_before in
          if_ind (All (λ x. x ≤ t)) (text_eq role (literal "human"))
            (s.active_human_replies ++ t ∷ []) s.active_human_replies
            (λ _. All-snoc (λ x. x ≤ t) s.active_human_replies t olds (omega arith)) (λ _. olds);
    }

add_clean-IsTimed :
    (s : Live) (now c : ℕ) (role content : Text)
    → IsTimed s
    → IsTimed (add_clean s now c role content).0
unfolding add_clean
add_clean-IsTimed s now c role [] v = v
add_clean-IsTimed s now c role (x ∷ content) v = append_message-IsTimed s now c role (x ∷ content) v

-- Whatever the clock says, even one that goes back: `add_message` keeps the messages in the order of
-- their times, all different and none after the last one.
pub add_message-IsTimed :
    (s : Live) (now : ℕ) (c : Option ℕ) (role content : Text)
    → IsTimed s
    → IsTimed (add_message s now c role content).0
unfolding add_message
add_message-IsTimed s now none role content v = v
add_message-IsTimed s now (some c) role content v = add_clean-IsTimed s now c role (clean content) v

discard_lem : (t : ℕ) (xs : List ℕ) → All (λ x. x < t) xs → discard t xs ≡ xs
unfolding discard
discard_lem t [] h = refl
discard_lem t (x ∷ xs) (h, hs) =
    if_ind (λ ys. ys ≡ x ∷ xs) (t == x) (discard t xs) (x ∷ discard t xs)
      (λ e. let q = (==_iff t x).0 e in absurd (omega (arith, q, h)))
      (λ _. ap (◌∷◌ x) (discard_lem t xs hs))

discard-snoc : (t : ℕ) (xs : List ℕ) → All (λ x. x < t) xs → discard t (xs ++ t ∷ []) ≡ xs
unfolding discard
discard-snoc t [] h =
    if_ind (λ ys. ys ≡ []) (t == t) [] (t ∷ []) (λ _. refl) (λ e. absurd (cc (e, ==_refl t)))
discard-snoc t (x ∷ xs) (h, hs) =
    if_ind (λ ys. ys ≡ x ∷ xs) (t == x) (discard t (xs ++ t ∷ [])) (x ∷ discard t (xs ++ t ∷ []))
      (λ e. let q = (==_iff t x).0 e in absurd (omega (arith, q, h)))
      (λ _. ap (◌∷◌ x) (discard-snoc t xs hs))

resolve-add_clean :
    (s : Live) (now c : ℕ) (role content : Text)
    → IsTimed s
    → (resolve_human_reply
        (add_clean s now c role content).0
        (add_clean s now c role content).1).active_human_replies
      ≡ s.active_human_replies
unfolding add_clean append_message resolve_human_reply
resolve-add_clean s now c role [] v = refl
resolve-add_clean s now c role (x ∷ content) v =
    let t : ℕ = next_captured_at s.last_captured_at now in
    let olds : All (λ y. y < t) s.active_human_replies =
      All-map (Before s.last_captured_at) (λ y. y < t) s.active_human_replies
        (λ y h. next_lem s.last_captured_at now y h) v.active_before in
    if_ind (λ ys. discard t ys ≡ s.active_human_replies) (text_eq role (literal "human"))
      (s.active_human_replies ++ t ∷ []) s.active_human_replies
      (λ _. discard-snoc t s.active_human_replies olds)
      (λ _. discard_lem t s.active_human_replies olds)

-- With the times in order, resolving the time that `add_message` returned leaves just the replies
-- active that were active before it.
pub resolve-add_message :
    (s : Live) (now : ℕ) (c : Option ℕ) (role content : Text)
    → IsTimed s
    → (resolve_human_reply
        (add_message s now c role content).0
        (add_message s now c role content).1).active_human_replies
      ≡ s.active_human_replies
unfolding add_message resolve_human_reply
resolve-add_message s now none role content v = refl
resolve-add_message s now (some c) role content v = resolve-add_clean s now c role (clean content) v
