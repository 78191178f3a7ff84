-- ===== src/Workspace/Outbox/Marks.antt =====
-- The mark of the first row that is pending, in a table of distinct manifests.
use reframe_web.Prelude.{
  ℕ, ◌≡◌, refl, sym, ap, ◌∙◌, subst, true, false, Option, none, some, List, [], ◌∷◌, map, ◌==◌,
  ==_refl, ==_iff, if◌then◌else◌, if_ind, true-false, arith,
}
use reframe_web.Workspace.Planning.{mem}
use reframe_web.Workspace.Outbox.{
  Pending, Row, manifest_of, pending_row, pending, find_row, first_id, mark, settled_row,
  settled_found, settled,
}
use reframe_web.Workspace.Outbox.Writes.{Distinct}

-- The first row that is pending is the one that its manifest names.
module _ (p : Pending) (ps : List Pending) where
  abbrev Listed : List Row → Type 0
  Listed rows = mem p.manifest_id (map manifest_of rows) ≡ true

  row-Listed :
      (row : Row) (rows : List Row) (o : Option ℕ)
      → (pending rows ≡ p ∷ ps → Listed rows)
      → pending_row row o (pending rows) ≡ p ∷ ps
      → Listed (row ∷ rows)
  row-Listed row rows none ih e =
      let same : row.publication ≡ p = ground arith in ground (arith, ap (λ x. x.manifest_id) same)
  row-Listed row rows (some id) ih e = ground (arith, ih e)

  pending-Listed : (rows : List Row) → pending rows ≡ p ∷ ps → Listed rows
  pending-Listed [] e = absurd (ground arith)
  pending-Listed (row ∷ rows) e = row-Listed row rows row.memory_id (pending-Listed rows) e

  abbrev Marked : ℕ → List Row → Type 0
  Marked id rows = (pending rows ≡ ps) × (settled p.manifest_id id rows ≡ true)

  -- The row that is marked
  here-Marked :
      (row : Row) (rows : List Row) (id : ℕ)
      → row.memory_id ≡ none
      → row.publication ≡ p
      → pending rows ≡ ps
      → Marked id (record row { memory_id = first_id row.memory_id id } ∷ rows)
  here-Marked row rows id free same rest = (
    ap (λ o. pending_row row (first_id o id) (pending rows)) free ∙ rest,
    ap
          (λ b. settled_found id (
            if b
            then some (record row { memory_id = first_id row.memory_id id })
            else find_row p.manifest_id rows))
          (subst (λ x. (manifest_of row == x.manifest_id) ≡ true) same (==_refl (manifest_of row)))
        ∙ (ap (λ o. settled_row id (first_id o id)) free ∙ ==_refl id),
  )

  -- A row before it
  behind-Marked :
      (row : Row) (rows : List Row) (id old : ℕ)
      → row.memory_id ≡ some old
      → (manifest_of row == p.manifest_id) ≡ false
      → Marked id rows
      → Marked id (row ∷ rows)
  behind-Marked row rows id old taken other (rest, done) = (
    ap (λ o. pending_row row o (pending rows)) taken ∙ rest,
    ap (λ b. settled_found id (if b then some row else find_row p.manifest_id rows)) other ∙ done,
  )

  marks_row :
      (row : Row) (rows : List Row) (id : ℕ) (o : Option ℕ)
      → row.memory_id ≡ o
      → Distinct (map manifest_of (row ∷ rows))
      → (pending rows ≡ p ∷ ps → Marked id (mark p.manifest_id id rows))
      → pending_row row o (pending rows) ≡ p ∷ ps
      → Marked id (mark p.manifest_id id (row ∷ rows))
  marks_row row rows id none free d ih e =
      let same : row.publication ≡ p = ground arith in
      if_ind (Marked id) (manifest_of row == p.manifest_id) _ _
        (λ t. here-Marked row rows id free same (ground arith))
        (λ f. absurd (
          true-false (
            sym (
              subst (λ x. (manifest_of row == x.manifest_id) ≡ true) same
                (==_refl (manifest_of row)))
            ∙ f)))
  marks_row row rows id (some old) taken (fresh, d) ih e =
      if_ind (Marked id) (manifest_of row == p.manifest_id) _ _
        (λ t. absurd (
          true-false (
            sym (pending-Listed rows e)
            ∙ subst (λ m. mem m (map manifest_of rows) ≡ false)
                ((==_iff (manifest_of row) p.manifest_id).0 t) fresh)))
        (λ f. behind-Marked row (mark p.manifest_id id rows) id old taken f (ih e))

  pub mark-pending :
      (rows : List Row) (id : ℕ)
      → Distinct (map manifest_of rows)
      → pending rows ≡ p ∷ ps
      → Marked id (mark p.manifest_id id rows)
  mark-pending [] id d e = absurd (ground arith)
  mark-pending (row ∷ rows) id (fresh, d) e =
      marks_row row rows id row.memory_id refl (fresh, d) (mark-pending rows id d) e
