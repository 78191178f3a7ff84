-- ===== src/Workspace/Planning/Sets.antt =====
-- The lists of ids that the resolution of a plan keeps as sets.
use reframe_web.Prelude.{
  ℕ, suc, ◌≤◌, ◌<◌, ◌≡◌, refl, ap, Bool, true, false, ◌||◌, List, [], ◌∷◌, ◌++◌, map, ◌==◌, ==_refl,
  ==_iff, if◌then◌else◌, All, arith,
}
use reframe_web.Workspace.Planning.{Source, memory_id, mem, remove, dedup_after}

pub mem-snoc : (x y : ℕ) (ys : List ℕ) → mem x (ys ++ y ∷ []) ≡ (mem x ys || x == y)
mem-snoc x y [] = ground arith
mem-snoc x y (z ∷ ys) = ground (arith, mem-snoc x y ys)

pub or_false : (b : Bool) → (b || false) ≡ b
or_false true = refl
or_false false = refl

pub or_true : (b c : Bool) → c ≡ true → (b || c) ≡ true
or_true true c e = refl
or_true false c e = e

pub mem_head : (x : ℕ) (ys : List ℕ) → mem x (x ∷ ys) ≡ true
mem_head x ys = cc (==_refl x)

pub mem_tail : (x y : ℕ) (ys : List ℕ) → mem x ys ≡ true → mem x (y ∷ ys) ≡ true
mem_tail x y ys h = or_true (x == y) (mem x ys) h

pub mem_other : (x y : ℕ) (ys : List ℕ) → mem x ys ≡ true → mem y ys ≡ false → (x == y) ≡ false
mem_other x y ys h k = ground (arith, ==_iff x y)

pub remove_head : (x : ℕ) (ys : List ℕ) → remove x (x ∷ ys) ≡ ys
remove_head x ys = cc (==_refl x)

-- How many of some ids are not being resolved.
unfoldable pub count : List ℕ → List ℕ → ℕ
count [] resolving = 0
count (u ∷ us) resolving =
    let rest = count us resolving in if mem u resolving then rest else suc rest

pub count-le :
    (us : List ℕ) (id : ℕ) (resolving : List ℕ) → count us (id ∷ resolving) ≤ count us resolving
unfolding count
count-le [] id resolving = omega arith
count-le (u ∷ us) id resolving = ground (arith, count-le us id resolving)

pub count-lt :
    (us : List ℕ) (id : ℕ) (resolving : List ℕ)
    → mem id us ≡ true
    → mem id resolving ≡ false
    → count us (id ∷ resolving) < count us resolving
unfolding count
count-lt [] id resolving h k = absurd cc
count-lt (u ∷ us) id resolving h k =
    ground (arith, count-lt us id resolving, count-le us id resolving, ==_iff id u)

-- `dict.fromkeys` loses no id.
pub dedup_lem :
    (x : ℕ) (seen xs : List ℕ)
    → mem x xs ≡ true
    → mem x seen ≡ false
    → mem x (dedup_after seen xs) ≡ true
dedup_lem x seen [] h k = absurd cc
dedup_lem x seen (y ∷ xs) h k =
    ground (arith, dedup_lem x seen xs, dedup_lem x (y ∷ seen) xs, ==_iff x y)

pub one_lem :
    (resolved ids : List ℕ) (x : ℕ)
    → mem x ids ≡ true
    → All (λ id. mem id resolved ≡ true) ids
    → mem x resolved ≡ true
one_lem resolved [] x h all = absurd cc
one_lem resolved (id ∷ ids) x h (there, all) = ground (arith, one_lem resolved ids x, ==_iff x id)

pub all_lem :
    (resolved ids memory_ids : List ℕ)
    → ((x : ℕ) → mem x memory_ids ≡ true → mem x ids ≡ true)
    → All (λ id. mem id resolved ≡ true) ids
    → All (λ id. mem id resolved ≡ true) memory_ids
all_lem resolved ids [] covers all = tt
all_lem resolved ids (x ∷ xs) covers all = (
  one_lem resolved ids x (covers x (mem_head x xs)) all,
  all_lem resolved ids xs (λ y h. covers y (mem_tail y x xs h)) all,
)

pub map-snoc :
    {Directory Manifest : Type 0} (xs : List (Source Directory Manifest))
    (x : Source Directory Manifest)
    → map memory_id (xs ++ x ∷ []) ≡ map memory_id xs ++ memory_id x ∷ []
map-snoc [] x = refl
map-snoc (y ∷ xs) x = ap (◌∷◌ (memory_id y)) (map-snoc xs x)
