-- ===== src/Agent/LiveConversation/Counts.antt =====
-- How often a message stands in a merged conversation.
use text.Mathlib.TextEquality.{Char-path}
use Prim.Native.Char.{code}
use reframe_web.Prelude.{
  ℕ, ◌+◌, ◌-◌, ◌≤◌, max, ◌≡◌, refl, sym, ap, ◌∙◌, ◌==◌, ==_iff, leb, leb→le, Bool, true, false,
  ◌&&◌, Option, none, some, List, [], ◌∷◌, ◌++◌, map, if◌then◌else◌, if_ind, arith,
}
use reframe_web.Tasks.Payloads.{Text}
use reframe_web.Agent.LiveConversation.{
  text_eq, LiveMessage, Live, HistoryMessage, History, key_eq, live_key, history_key,
  history_message, messages_for, active_for, stamp_is, at_or_after, replace_here, behind,
  replace_search, found_or, replace_persisted_active_reply, replace_all, count, append_missing,
  merge_messages, merge_live, merge,
}

and_lem : (a b : Bool) → (a && b) ≡ true → (a ≡ true) × (b ≡ true)
and_lem true b e = (refl, e)
and_lem false b e = absurd (cc e)

text_eq_lem : (t u : Text) → text_eq t u ≡ true → t ≡ u
unfolding text_eq
text_eq_lem [] [] e = refl
text_eq_lem [] (d ∷ u) e = absurd (cc e)
text_eq_lem (c ∷ t) [] e = absurd (cc e)
text_eq_lem (c ∷ t) (d ∷ u) e =
    let (same, rest) = and_lem (code c == code d) (text_eq t u) e in
    let head : c ≡ d = Char-path c d ((==_iff (code c) (code d)).0 same) in
    let tail : t ≡ u = text_eq_lem t u rest in ap (λ x. x ∷ t) head ∙ ap (λ x. d ∷ x) tail

key_eq_lem : (k l : Text × Text) → key_eq k l ≡ true → k ≡ l
key_eq_lem (role, content) (role', content') e =
    let (same, rest) = and_lem (text_eq role role') (text_eq content content') e in
    let head : role ≡ role' = text_eq_lem role role' same in
    let tail : content ≡ content' = text_eq_lem content content' rest in
    ap (λ x. (x, content)) head ∙ ap (λ x. (role', x)) tail

-- The count of a key in a conversation
abbrev pub occurs : Text × Text → List HistoryMessage → ℕ
occurs k ms = count k (map history_key ms)

abbrev pub occurs_live : Text × Text → List LiveMessage → ℕ
occurs_live k lives = count k (map live_key lives)

one_if : Bool → ℕ
one_if b = if b then 1 else 0

one_lem : (b : Bool) (n : ℕ) → (if b then n + 1 else n) ≡ one_if b + n
unfolding one_if
one_lem true n = omega arith
one_lem false n = omega arith

count_lem :
    (k l : Text × Text) (ks : List (Text × Text))
    → count k (l ∷ ks) ≡ one_if (key_eq k l) + count k ks
unfolding count
count_lem k l ks = one_lem (key_eq k l) (count k ks)

occurs-snoc :
    (k : Text × Text) (ms : List HistoryMessage) (m : HistoryMessage)
    → occurs k (ms ++ m ∷ []) ≡ occurs k ms + one_if (key_eq k (history_key m))
unfolding count
occurs-snoc k [] m = let e = one_lem (key_eq k (history_key m)) 0 in omega (arith, e)
occurs-snoc k (m' ∷ ms) m =
    let ih = occurs-snoc k ms m in
    let x = one_lem (key_eq k (history_key m')) (occurs k (ms ++ m ∷ [])) in
    let y = one_lem (key_eq k (history_key m')) (occurs k ms) in omega (arith, ih, x, y)

left_lem :
    (b : Bool) (n l c : ℕ)
    → (b ≡ true → 1 ≤ c)
    → n + (l - (if b then c - 1 else c)) ≡ n + ((one_if b + l) - c)
unfolding one_if
left_lem true n l c h = let e : 1 ≤ c = h refl in omega (arith, e)
left_lem false n l c h = omega arith

more_lem :
    (b : Bool) (n l c : ℕ)
    → (b ≡ true → c ≡ 0)
    → (n + one_if b) + (l - c) ≡ n + ((one_if b + l) - c)
unfolding one_if
more_lem true n l c h = let e : c ≡ 0 = h refl in omega (arith, e)
more_lem false n l c h = omega arith

leb-false : (n : ℕ) → leb 1 n ≡ false → n ≡ 0
leb-false n h = ground arith

append_missing_lem :
    (counts : Text × Text → ℕ) (lives : List LiveMessage) (merged : List HistoryMessage)
    (k : Text × Text)
    → occurs k (append_missing counts lives merged)
      ≡ occurs k merged + (occurs_live k lives - counts k)
unfolding append_missing count
append_missing_lem counts [] merged k = omega arith
append_missing_lem counts (live ∷ lives) merged k =
    let key : Text × Text = live_key live in
    let same : (b : Bool) → key_eq k key ≡ true → counts k ≡ counts key =
      λ _ e. ap counts (key_eq_lem k key e) in
    let c = one_lem (key_eq k key) (occurs_live k lives) in
    if_ind
      (λ ms.
        occurs k ms
        ≡ occurs k merged
          + ((if key_eq k key then occurs_live k lives + 1 else occurs_live k lives) - counts k))
      (leb 1 (counts key)) _ _
      (λ h.
        let ih =
          append_missing_lem (λ k'. if key_eq k' key then counts k' - 1 else counts k') lives merged
            k in
        let l =
          left_lem (key_eq k key) (occurs k merged) (occurs_live k lives) (counts k)
            (λ e. let q = same true e in let p = leb→le 1 (counts key) h in omega (arith, q, p)) in
        ih ∙ l ∙ ap (λ x. occurs k merged + (x - counts k)) (sym c))
      (λ h.
        let ih = append_missing_lem counts lives (merged ++ history_message live ∷ []) k in
        let snoc = occurs-snoc k merged (history_message live) in
        let l =
          more_lem (key_eq k key) (occurs k merged) (occurs_live k lives) (counts k)
            (λ e. same true e ∙ leb-false (counts key) h) in
        ih
        ∙ ap (λ x. x + (occurs_live k lives - counts k)) snoc
        ∙ l
        ∙ ap (λ x. occurs k merged + (x - counts k)) (sym c))

-- Of the messages, one with the key of the live message was taken out at most.
record Drops (k : Text × Text) (live : LiveMessage) (ms out : List HistoryMessage) : Type 0 where
  fewer : occurs k out ≤ occurs k ms
  one : occurs k ms ≤ occurs k out + one_if (key_eq k (live_key live))

abbrev Fits :
    Text × Text → LiveMessage → List HistoryMessage → Option (List HistoryMessage) → Type 0
Fits k live ms none = Unit {0}
Fits k live ms (some out) = Drops k live ms out

behind_lem :
    (k : Text × Text) (live : LiveMessage) (m : HistoryMessage) (ms : List HistoryMessage)
    (o here : Option (List HistoryMessage))
    → Fits k live ms o
    → Fits k live (m ∷ ms) here
    → Fits k live (m ∷ ms) (behind m o here)
behind_lem k live m ms none here h g = g
behind_lem k live m ms (some out) here h g =
    let x = count_lem k (history_key m) (map history_key ms) in
    let y = count_lem k (history_key m) (map history_key out) in
    record {
      fewer = let f = h.fewer in omega (arith, x, y, f);
      one = let f = h.one in omega (arith, x, y, f);
    }

here_lem :
    (k : Text × Text) (live : LiveMessage) (m : HistoryMessage) (ms : List HistoryMessage)
    → Fits k live (m ∷ ms) (replace_here live m ms)
unfolding replace_here
here_lem k live m ms =
    let x = count_lem k (history_key m) (map history_key ms) in
    if_ind (Fits k live (m ∷ ms)) (key_eq (history_key m) (live_key live)) _ none
      (λ e.
        let same : one_if (key_eq k (history_key m)) ≡ one_if (key_eq k (live_key live)) =
          ap (λ l. one_if (key_eq k l)) (key_eq_lem (history_key m) (live_key live) e) in
        if_ind (Fits k live (m ∷ ms)) (stamp_is live.captured_at m.created_at) (some (m ∷ ms)) _
          (λ _. record { fewer = omega arith; one = omega arith })
          (λ _.
            if_ind (Fits k live (m ∷ ms)) (at_or_after live.captured_at m.created_at) (some ms) none
              (λ _. record { fewer = omega (arith, x); one = omega (arith, x, same) }) (λ _. tt)))
      (λ _. tt)

search_lem :
    (k : Text × Text) (live : LiveMessage) (ms : List HistoryMessage)
    → Fits k live ms (replace_search live ms)
unfolding replace_search
search_lem k live [] = tt
search_lem k live (m ∷ ms) =
    behind_lem k live m ms (replace_search live ms) (replace_here live m ms) (search_lem k live ms)
      (here_lem k live m ms)

found_lem :
    (k : Text × Text) (live : LiveMessage) (ms : List HistoryMessage)
    (o : Option (List HistoryMessage))
    → Fits k live ms o
    → Drops k live ms (found_or ms o)
found_lem k live ms none h = record { fewer = omega arith; one = omega arith }
found_lem k live ms (some out) h = h

replace_all_lem :
    (k : Text × Text) (actives : List LiveMessage) (ms : List HistoryMessage)
    → (occurs k (replace_all actives ms) ≤ occurs k ms)
      × (occurs k ms ≤ occurs k (replace_all actives ms) + occurs_live k actives)
unfolding replace_all replace_persisted_active_reply
replace_all_lem k [] ms = (omega arith, omega arith)
replace_all_lem k (live ∷ lives) ms =
    let d = found_lem k live ms (replace_search live ms) (search_lem k live ms) in
    let (fewer, more) = replace_all_lem k lives (found_or ms (replace_search live ms)) in
    let x = count_lem k (live_key live) (map live_key lives) in
    let f = d.fewer in let o = d.one in (omega (arith, fewer, f), omega (arith, more, o, x))

-- The counts of a merge: those of the live messages, and of the persisted ones without the copies of
-- replies that are active
pub record IsMerged (lives actives : List LiveMessage) (messages merged : List HistoryMessage)
    (k : Text × Text) : Type 0 where
  pub persisted : ℕ
  pub larger : occurs k merged ≡ max persisted (occurs_live k lives)
  pub not_more : persisted ≤ occurs k messages
  pub not_less : occurs k messages ≤ persisted + occurs_live k actives

sum_lem : (n l : ℕ) → n + (l - n) ≡ max n l
sum_lem n l = omega arith

merge_messages-IsMerged :
    (lives actives : List LiveMessage) (ms : List HistoryMessage) (k : Text × Text)
    → IsMerged lives actives ms (merge_messages lives actives ms) k
unfolding merge_messages
merge_messages-IsMerged lives actives ms k =
    let merged : List HistoryMessage = replace_all actives ms in
    let e = append_missing_lem (λ key. occurs key merged) lives merged k in
    let (fewer, more) = replace_all_lem k actives ms in
    record {
      persisted = occurs k merged;
      larger = e ∙ sum_lem (occurs k merged) (occurs_live k lives);
      not_more = fewer;
      not_less = more;
    }

merge_live_lem :
    (s : Live) (now c : ℕ) (lives : List LiveMessage) (h : History) (k : Text × Text)
    → (h' : History) × (merge_live s now c lives (some h) ≡ some h')
      × IsMerged lives (active_for s c) h.messages h'.messages k
unfolding merge_live count
merge_live_lem s now c [] h k =
    let x : occurs k h.messages ≡ max (occurs k h.messages) 0 = omega arith in
    (
      h,
      refl,
      record {
        persisted = occurs k h.messages;
        larger = x;
        not_more = omega arith;
        not_less = omega arith;
      },
    )
merge_live_lem s now c (live ∷ lives) h k =
    (_, refl, merge_messages-IsMerged (live ∷ lives) (active_for s c) h.messages k)

-- A merge of a persisted conversation returns one in which each message, by its role and content,
-- stands as often as among the live messages of the conversation, or as often as among the persisted
-- ones if that is more, where of these at most as many were taken out as there are active replies
-- with that role and content.
pub merge-IsMerged :
    (s : Live) (now c : ℕ) (h : History) (k : Text × Text)
    → (h' : History) × (merge s now (some h) (some c) ≡ some h')
      × IsMerged (messages_for s c) (active_for s c) h.messages h'.messages k
unfolding merge
merge-IsMerged s now c h k = merge_live_lem s now c (messages_for s c) h k
