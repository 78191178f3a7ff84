-- ===== src/Workspace/Outbox/Writes.antt =====
-- What the daemon's table and the graph keep when they are written.
use reframe_web.Prelude.{
  ℕ, ◌≡◌, refl, sym, ap, ◌∙◌, subst, ◌⊎◌, inl, inr, true, false, Option, none, some, List, [], ◌∷◌,
  ◌++◌, map, ◌==◌, ==_iff, if_ind, All, Bool-cases, arith,
}
use reframe_web.Workspace.Planning.{mem}
use reframe_web.Workspace.Planning.Sets.{mem-snoc}
use reframe_web.Workspace.Outbox.{
  Row, manifest_of, find_row, first_id, mark, CheckpointMemory, CheckpointNode, same_identity,
  upsert, get_record,
}

-- The graph has a checkpoint of a manifest under an id.
abbrev pub Holds : List CheckpointNode → ℕ → ℕ → Type 0
Holds graph id manifest =
    (n : CheckpointNode) × (get_record id graph ≡ some n) × (n.content.manifest_id ≡ manifest)

abbrev pub RowHolds : List CheckpointNode → Option ℕ → ℕ → Type 0
RowHolds graph none manifest = Unit
RowHolds graph (some id) manifest = Holds graph id manifest

abbrev pub IsPublished : List CheckpointNode → Row → Type 0
IsPublished graph row = RowHolds graph row.memory_id row.publication.manifest_id

abbrev pub Distinct : List ℕ → Type 0
Distinct [] = Unit
Distinct (x ∷ xs) = (mem x xs ≡ false) × Distinct xs

-- A row that is one of the table stays: its publication, and its memory id once it has one.
abbrev pub Stays : Row → Row → Type 0
Stays row row' =
    (row'.publication ≡ row.publication)
    × ((row.memory_id ≡ none) ⊎ (row'.memory_id ≡ row.memory_id))

abbrev pub Kept : List Row → List Row → Type 0
Kept rows rows' =
    (manifest : ℕ) (row : Row)
    → find_row manifest rows ≡ some row
    → (row' : Row) × (find_row manifest rows' ≡ some row') × Stays row row'

pub same_identity-manifest :
    (a b : CheckpointMemory) → same_identity a b ≡ true → a.manifest_id ≡ b.manifest_id
same_identity-manifest a b h = ground arith

replaced-Holds :
    (n : CheckpointNode) (ns : List CheckpointNode) (memory : CheckpointMemory) (id manifest : ℕ)
    → same_identity n.content memory ≡ true
    → Holds (n ∷ ns) id manifest
    → Holds (record n { content = memory } ∷ ns) id manifest
replaced-Holds n ns memory id manifest s (found, e, m) = elim (Bool-cases (n.id == id)) [
  | inl t ↦ (record n { content = memory }, ground arith, found_manifest t)
  | inr t ↦ (found, ground arith, m)
]
  where
    found_manifest : (n.id == id) ≡ true → memory.manifest_id ≡ manifest
    found_manifest t =
        let same : n ≡ found = ground arith in
        sym (same_identity-manifest n.content memory s) ∙ (ap (λ x. x.content.manifest_id) same ∙ m)

behind-Holds :
    (n : CheckpointNode) (ns ns' : List CheckpointNode) (id manifest : ℕ)
    → Holds (n ∷ ns) id manifest
    → (Holds ns id manifest → Holds ns' id manifest)
    → Holds (n ∷ ns') id manifest
behind-Holds n ns ns' id manifest (found, e, m) rest = elim (Bool-cases (n.id == id)) [
  | inl t ↦ (found, ground arith, m)
  | inr t ↦ (let r = rest (found, ground arith, m) in (r.0, ground arith, r.2))
]

pub get_record-upsert :
    (graph : List CheckpointNode) (id : ℕ) (memory : CheckpointMemory) (id' manifest : ℕ)
    → Holds graph id' manifest
    → Holds (upsert id memory graph) id' manifest
get_record-upsert [] id memory id' manifest (n, e, m) = absurd (ground arith)
get_record-upsert (n ∷ ns) id memory id' manifest h =
    if_ind (λ g. Holds g id' manifest) (n.id == id) _ _
      (λ e.
        if_ind (λ x. Holds (x ∷ ns) id' manifest) (same_identity n.content memory) _ _
          (λ s. replaced-Holds n ns memory id' manifest s h) (λ s. h))
      (λ e.
        behind-Holds n ns (upsert id memory ns) id' manifest h
          (get_record-upsert ns id memory id' manifest))

pub Distinct-snoc : (xs : List ℕ) (x : ℕ) → Distinct xs → mem x xs ≡ false → Distinct (xs ++ x ∷ [])
Distinct-snoc [] x d h = (refl, tt)
Distinct-snoc (y ∷ ys) x (n, d) h =
    ((ground (arith, mem-snoc y x ys)), Distinct-snoc ys x d (ground arith))

pub manifests-mark :
    (rows : List Row) (manifest id : ℕ)
    → map manifest_of (mark manifest id rows) ≡ map manifest_of rows
manifests-mark [] manifest id = refl
manifests-mark (row ∷ rows) manifest id = ground (arith, manifests-mark rows manifest id)

first_id-Stays :
    (row : Row) (id : ℕ) (o : Option ℕ) → row.memory_id ≡ o → (o ≡ none) ⊎ (first_id o id ≡ o)
first_id-Stays row id none e = inl refl
first_id-Stays row id (some old) e = inr refl

Kept-cons :
    (r r' : Row) (rows rows' : List Row)
    → manifest_of r' ≡ manifest_of r
    → Stays r r'
    → Kept rows rows'
    → Kept (r ∷ rows) (r' ∷ rows')
Kept-cons r r' rows rows' e s k m row h = elim (Bool-cases (manifest_of r == m)) [
  | inl t ↦ (r', ground arith, subst (λ x. Stays x r') (head_row t) s)
  | inr t ↦ (let found = k m row (ground arith) in (found.0, ground arith, found.2))
]
  where
    head_row : (manifest_of r == m) ≡ true → r ≡ row
    head_row t = ground arith

pub refl-Kept : (rows : List Row) → Kept rows rows
refl-Kept rows m row h = (row, h, (refl, inr refl))

pub Kept-mark : (rows : List Row) (manifest id : ℕ) → Kept rows (mark manifest id rows)
Kept-mark [] manifest id = refl-Kept []
Kept-mark (row ∷ rows) manifest id =
    if_ind (Kept (row ∷ rows)) (manifest_of row == manifest) _ _
      (λ e.
        Kept-cons row (record row { memory_id = first_id row.memory_id id }) rows rows refl
          (refl, first_id-Stays row id row.memory_id refl) (refl-Kept rows))
      (λ e.
        Kept-cons row row rows (mark manifest id rows) refl (refl, inr refl)
          (Kept-mark rows manifest id))

pub Kept-append : (rows more : List Row) → Kept rows (rows ++ more)
Kept-append [] more = λ m row h. absurd (ground arith)
Kept-append (r ∷ rows) more =
    Kept-cons r r rows (rows ++ more) refl (refl, inr refl) (Kept-append rows more)

first_id-RowHolds :
    (graph : List CheckpointNode) (o : Option ℕ) (id manifest : ℕ)
    → RowHolds graph o manifest
    → Holds graph id manifest
    → RowHolds graph (first_id o id) manifest
first_id-RowHolds graph none id manifest p h = h
first_id-RowHolds graph (some old) id manifest p h = p

pub IsPublished-mark :
    (graph : List CheckpointNode) (rows : List Row) (manifest id : ℕ)
    → Holds graph id manifest
    → All (IsPublished graph) rows
    → All (IsPublished graph) (mark manifest id rows)
IsPublished-mark graph [] manifest id h a = tt
IsPublished-mark graph (row ∷ rows) manifest id h (p, ps) =
    if_ind (All (IsPublished graph)) (manifest_of row == manifest) _ _
      (λ e. (
        first_id-RowHolds graph row.memory_id id row.publication.manifest_id p
            (subst (Holds graph id) (sym ((==_iff (manifest_of row) manifest).0 e)) h),
        ps,
      ))
      (λ e. (p, IsPublished-mark graph rows manifest id h ps))

-- A larger graph keeps what is published.
larger-RowHolds :
    (graph graph' : List CheckpointNode) (o : Option ℕ) (manifest : ℕ)
    → ((id m : ℕ) → Holds graph id m → Holds graph' id m)
    → RowHolds graph o manifest
    → RowHolds graph' o manifest
larger-RowHolds graph graph' none manifest up p = tt
larger-RowHolds graph graph' (some id) manifest up p = up id manifest p

pub larger-IsPublished :
    (graph graph' : List CheckpointNode) (rows : List Row)
    → ((id m : ℕ) → Holds graph id m → Holds graph' id m)
    → All (IsPublished graph) rows
    → All (IsPublished graph') rows
larger-IsPublished graph graph' [] up a = tt
larger-IsPublished graph graph' (row ∷ rows) up (p, ps) = (
  larger-RowHolds graph graph' row.memory_id row.publication.manifest_id up p,
  larger-IsPublished graph graph' rows up ps,
)

pub IsPublished-append :
    (graph : List CheckpointNode) (rows more : List Row)
    → All (IsPublished graph) rows
    → All (IsPublished graph) more
    → All (IsPublished graph) (rows ++ more)
IsPublished-append graph [] more a b = b
IsPublished-append graph (row ∷ rows) more (p, ps) b = (p, IsPublished-append graph rows more ps b)
