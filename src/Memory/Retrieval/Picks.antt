-- ===== src/Memory/Retrieval/Picks.antt =====
-- A loop that appends what it finds, and the marks that it makes.
use Prim.Native.String.{String}
use reframe_web.Prelude.{ℕ, ◌≡◌, refl, sym, ap, subst, ◌∙◌, Option, none, some, List, [], ◌∷◌, ◌++◌}
use reframe_web.Memory.Nodes.{DateTime, Marks, mark_each, mark_each-append}
use reframe_web.Memory.Retrieval.{consed, collect}

-- The ids that are read for some results, one after the other
abbrev pub reads_of : {B : Type 0} → (B → List String) → List B → List String
reads_of reads [] = []
reads_of reads (b ∷ bs) = reads b ++ reads_of reads bs

-- The elements in order, from some marks: each is left out for a reason, or taken with what was found
-- at it, which is marked as read before the next one.
pub data Picks {A B : Type 0} (clock : ℕ → DateTime) (reads : B → List String)
    (Skips : A → Marks → Type 0) (Takes : A → Marks → B → Type 0)
    : Marks → List A → List B → Type 0 where
  end : {marks : Marks} → Picks clock reads Skips Takes marks [] []
  skip :
      {marks : Marks} {a : A} {xs : List A} {bs : List B}
      → Skips a marks
      → Picks clock reads Skips Takes marks xs bs
      → Picks clock reads Skips Takes marks (a ∷ xs) bs
  take :
      {marks : Marks} {a : A} {b : B} {xs : List A} {bs : List B}
      → Takes a marks b
      → Picks clock reads Skips Takes (mark_each clock (reads b) marks) xs bs
      → Picks clock reads Skips Takes marks (a ∷ xs) (b ∷ bs)

module _ {A B : Type 0} (clock : ℕ → DateTime) (reads : B → List String)
    (Skips : A → Marks → Type 0) (Takes : A → Marks → B → Type 0) where
  -- What one element leads to: nothing marked and nothing found, or the marks of what was found
  abbrev pub Finds : A → Marks → Marks × Option B → Type 0
  Finds a marks (marks', none) = (marks' ≡ marks) × Skips a marks
  Finds a marks (marks', some b) = (marks' ≡ mark_each clock (reads b) marks) × Takes a marks b

  abbrev pub Collects : List A → Marks → Marks × List B → Type 0
  Collects xs marks (marks', bs) =
      (marks' ≡ mark_each clock (reads_of reads bs) marks)
      × Picks clock reads Skips Takes marks xs bs

  consed_lem :
      (a : A) (xs : List A) (marks : Marks) (x : Marks × Option B) (bs : List B) (marks' : Marks)
      → Finds a marks x
      → Collects xs x.0 (marks', bs)
      → Collects (a ∷ xs) marks (marks', consed x.1 bs)
  consed_lem a xs marks (marks1, none) bs marks' (same, left) (e, rest) = (
    e ∙ ap (mark_each clock (reads_of reads bs)) same,
    skip left (subst (λ m. Picks clock reads Skips Takes m xs bs) same rest),
  )
  consed_lem a xs marks (marks1, some b) bs marks' (one, taken) (e, rest) = (
    e
        ∙ ap (mark_each clock (reads_of reads bs)) one
        ∙ sym (mark_each-append clock (reads b) (reads_of reads bs) marks),
    take taken (subst (λ m. Picks clock reads Skips Takes m xs bs) one rest),
  )

  pub collect_lem :
      (find_one : A → Marks → Marks × Option B)
      → ((a : A) (marks : Marks) → Finds a marks (find_one a marks))
      → (xs : List A) (marks : Marks) → Collects xs marks (collect find_one xs marks)
  unfolding collect mark_each
  collect_lem find_one finds [] marks = (refl, end)
  collect_lem find_one finds (a ∷ xs) marks =
      let x : Marks × Option B = find_one a marks in
      let y : Marks × List B = collect find_one xs x.0 in
      consed_lem a xs marks x y.1 y.0 (finds a marks) (collect_lem find_one finds xs x.0)
