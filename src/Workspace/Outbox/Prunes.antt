-- ===== src/Workspace/Outbox/Prunes.antt =====
-- What the daemon's table and the graph keep when published rows are pruned from the table.
use reframe_web.Prelude.{
  ℕ, ◌≡◌, refl, sym, ap, ◌∙◌, subst, ◌⊎◌, inl, inr, Bool, true, false, Option, none, some, List, [],
  ◌∷◌, map, ◌==◌, ==_iff, if◌then◌else◌, if_ind, Bool-cases, All, arith,
}
use reframe_web.Workspace.Planning.{mem}
use reframe_web.Workspace.Outbox.{
  Row, CheckpointNode, manifest_of, pending_row, pending, find_row, is_expired, prune,
}
use reframe_web.Workspace.Outbox.Writes.{Holds, RowHolds, IsPublished, Distinct, Kept, Stays}

-- A row is still there, or the graph has its manifest, under its memory id if it had one.
abbrev pub Survives : List CheckpointNode → List Row → ℕ → Row → Type 0
Survives graph rows manifest row =
    ((row' : Row) × (find_row manifest rows ≡ some row') × Stays row row')
    ⊎ ((id : ℕ) × Holds graph id manifest × ((row.memory_id ≡ none) ⊎ (row.memory_id ≡ some id)))

abbrev pub AllSurvive : List CheckpointNode → List Row → List Row → Type 0
AllSurvive graph rows rows' =
    (manifest : ℕ) (row : Row)
    → find_row manifest rows ≡ some row
    → Survives graph rows' manifest row

pub Kept-AllSurvive :
    (graph : List CheckpointNode) (rows rows' : List Row)
    → Kept rows rows'
    → AllSurvive graph rows rows'
Kept-AllSurvive graph rows rows' k m row h = inl (k m row h)

same_id :
    (u v : Option ℕ) (id : ℕ)
    → (u ≡ none) ⊎ (v ≡ u)
    → (v ≡ none) ⊎ (v ≡ some id)
    → (u ≡ none) ⊎ (u ≡ some id)
same_id u v id (inl e) q = inl e
same_id u v id (inr e) (inl q) = inl (sym e ∙ q)
same_id u v id (inr e) (inr q) = inr (sym e ∙ q)

stay_trans : (u v w : Option ℕ) → (u ≡ none) ⊎ (v ≡ u) → (v ≡ none) ⊎ (w ≡ v) → (u ≡ none) ⊎ (w ≡ u)
stay_trans u v w (inl e) q = inl e
stay_trans u v w (inr e) (inl q) = inl (sym e ∙ q)
stay_trans u v w (inr e) (inr q) = inr (q ∙ e)

then-Survives :
    (graph : List CheckpointNode) (rows : List Row) (m : ℕ) (row row' : Row)
    → Stays row row'
    → Survives graph rows m row'
    → Survives graph rows m row
then-Survives graph rows m row row' (e, i) (inl (last, found, (p, j))) =
    inl (last, found, (p ∙ e, stay_trans row.memory_id row'.memory_id last.memory_id i j))
then-Survives graph rows m row row' (e, i) (inr (id, h, j)) =
    inr (id, h, same_id row.memory_id row'.memory_id id i j)

after-Survives :
    (graph graph' : List CheckpointNode) (rows rows' : List Row) (m : ℕ) (row : Row)
    → ((id n : ℕ) → Holds graph id n → Holds graph' id n)
    → AllSurvive graph' rows rows'
    → Survives graph rows m row
    → Survives graph' rows' m row
after-Survives graph graph' rows rows' m row up q (inl (row', found, stays)) =
    then-Survives graph' rows' m row row' stays (q m row' found)
after-Survives graph graph' rows rows' m row up q (inr (id, h, i)) = inr (id, up id m h, i)

pub trans-AllSurvive :
    (graph graph' : List CheckpointNode) (a b c : List Row)
    → ((id n : ℕ) → Holds graph id n → Holds graph' id n)
    → AllSurvive graph a b
    → AllSurvive graph' b c
    → AllSurvive graph' a c
trans-AllSurvive graph graph' a b c up p q m row h =
    after-Survives graph graph' b c m row up q (p m row h)

-- The row that is pruned had been published.
expired_lem :
    (graph : List CheckpointNode) (old : ℕ → Bool) (manifest : ℕ) (o : Option ℕ)
    → is_expired old manifest o ≡ true
    → RowHolds graph o manifest
    → (id : ℕ) × Holds graph id manifest × ((o ≡ none) ⊎ (o ≡ some id))
expired_lem graph old manifest none e h = absurd (ground arith)
expired_lem graph old manifest (some id) e h = (id, h, inr refl)

-- A row before the one that is looked for
behind-Survives :
    (graph : List CheckpointNode) (r : Row) (rows : List Row) (m : ℕ) (row : Row)
    → (manifest_of r == m) ≡ false
    → Survives graph rows m row
    → Survives graph (r ∷ rows) m row
behind-Survives graph r rows m row f (inl (row', found, stays)) = inl (row', ground arith, stays)
behind-Survives graph r rows m row f (inr x) = inr x

pub prune-AllSurvive :
    (graph : List CheckpointNode) (old : ℕ → Bool) (rows : List Row)
    → All (IsPublished graph) rows
    → AllSurvive graph rows (prune old rows)
prune-AllSurvive graph old [] a = λ m row h. absurd (ground arith)
prune-AllSurvive graph old (r ∷ rows) (p, ps) = λ m row h. elim (Bool-cases (manifest_of r == m)) [
  | inl t ↦
      (let same : r ≡ row = ground arith in
        let here : m ≡ manifest_of r = sym ((==_iff (manifest_of r) m).0 t) in
        subst (Survives graph (prune old (r ∷ rows)) m) same (
          if_ind (λ g. Survives graph g m r) (is_expired old (manifest_of r) r.memory_id) _ _
            (λ e.
              subst (λ x. Survives graph (prune old rows) x r) (sym here)
                (inr (expired_lem graph old (manifest_of r) r.memory_id e p)))
            (λ e. inl (r, ground arith, (refl, inr refl)))))
  | inr f ↦
      (let rest : Survives graph (prune old rows) m row =
          prune-AllSurvive graph old rows ps m row (ground arith) in
        if_ind (λ g. Survives graph g m row) (is_expired old (manifest_of r) r.memory_id) _ _
          (λ e. rest) (λ e. behind-Survives graph r (prune old rows) m row f rest))
]

pub IsPublished-prune :
    (graph : List CheckpointNode) (old : ℕ → Bool) (rows : List Row)
    → All (IsPublished graph) rows
    → All (IsPublished graph) (prune old rows)
IsPublished-prune graph old [] a = tt
IsPublished-prune graph old (r ∷ rows) (p, ps) =
    if_ind (All (IsPublished graph)) (is_expired old (manifest_of r) r.memory_id) _ _
      (λ e. IsPublished-prune graph old rows ps) (λ e. (p, IsPublished-prune graph old rows ps))

mem-prune :
    (old : ℕ → Bool) (rows : List Row) (x : ℕ)
    → mem x (map manifest_of rows) ≡ false
    → mem x (map manifest_of (prune old rows)) ≡ false
mem-prune old [] x e = refl
mem-prune old (r ∷ rows) x e =
    let rest = mem-prune old rows x (ground arith) in
    if_ind (λ g. mem x (map manifest_of g) ≡ false) (is_expired old (manifest_of r) r.memory_id) _ _
      (λ t. rest) (λ t. ground (arith, rest))

pub Distinct-prune :
    (old : ℕ → Bool) (rows : List Row)
    → Distinct (map manifest_of rows)
    → Distinct (map manifest_of (prune old rows))
Distinct-prune old [] d = tt
Distinct-prune old (r ∷ rows) (fresh, d) =
    if_ind (λ g. Distinct (map manifest_of g)) (is_expired old (manifest_of r) r.memory_id) _ _
      (λ t. Distinct-prune old rows d)
      (λ t. (mem-prune old rows (manifest_of r) fresh, Distinct-prune old rows d))

-- What is pending is not pruned.
pending_row-prune :
    (old : ℕ → Bool) (r : Row) (o : Option ℕ) (rows : List Row)
    → r.memory_id ≡ o
    → pending (if is_expired old (manifest_of r) o then rows else r ∷ rows)
      ≡ pending_row r o (pending rows)
pending_row-prune old r none rows e = ap (λ o. pending_row r o (pending rows)) e
pending_row-prune old r (some id) rows e =
    if_ind (λ g. pending g ≡ pending rows) (old (manifest_of r)) rows (r ∷ rows) (λ t. refl)
      (λ t. ap (λ o. pending_row r o (pending rows)) e)

pub pending-prune : (old : ℕ → Bool) (rows : List Row) → pending (prune old rows) ≡ pending rows
pending-prune old [] = refl
pending-prune old (r ∷ rows) =
    pending_row-prune old r r.memory_id (prune old rows) refl
    ∙ ap (pending_row r r.memory_id) (pending-prune old rows)
