-- ===== src/Workspace/Outbox/Identities.antt =====
-- Writes to a graph whose nodes have the identities that belong to their ids.
use reframe_web.Prelude.{
  ℕ, ◌≡◌, refl, sym, ap, ◌∙◌, subst, true, some, List, [], ◌∷◌, ◌==◌, ==_iff, if◌then◌else◌, if_ind,
  true-false, All, arith,
}
use reframe_web.Workspace.Outbox.{
  CheckpointMemory, CheckpointNode, ids_eq, same_identity, upsert, get_record,
}

ids_eq-same : (a b r : List ℕ) → ids_eq a r ≡ true → ids_eq b r ≡ true → ids_eq a b ≡ true
ids_eq-same [] [] r p q = refl
ids_eq-same [] (y ∷ b) [] p q = absurd (ground arith)
ids_eq-same [] (y ∷ b) (z ∷ r) p q = absurd (ground arith)
ids_eq-same (x ∷ a) [] [] p q = absurd (ground arith)
ids_eq-same (x ∷ a) [] (z ∷ r) p q = absurd (ground arith)
ids_eq-same (x ∷ a) (y ∷ b) [] p q = absurd (ground arith)
ids_eq-same (x ∷ a) (y ∷ b) (z ∷ r) p q =
    ground (arith, ids_eq-same a b r (ground arith) (ground arith))

same_identity-same :
    (a b r : CheckpointMemory)
    → same_identity a r ≡ true
    → same_identity b r ≡ true
    → same_identity a b ≡ true
same_identity-same a b r p q = ground (
  arith,
  ids_eq-same a.base_memory_ids b.base_memory_ids r.base_memory_ids (ground arith) (ground arith),
)

module _ (identity : ℕ → CheckpointMemory) where
  -- The nodes of a graph have the identities that belong to their ids.
  abbrev pub AllIdentified : List CheckpointNode → Type 0
  AllIdentified graph = All (λ n. same_identity n.content (identity n.id) ≡ true) graph

  pub get_record-upsert_own :
      (id : ℕ) (memory : CheckpointMemory) (graph : List CheckpointNode)
      → AllIdentified graph
      → same_identity memory (identity id) ≡ true
      → get_record id (upsert id memory graph) ≡ some (record { id = id; content = memory })
  get_record-upsert_own id memory [] a m = ground arith
  get_record-upsert_own id memory (n ∷ ns) (p, a) m =
      if_ind (λ g. get_record id g ≡ some (record { id = id; content = memory })) (n.id == id) _ _
        (λ t.
          if_ind (λ x. get_record id (x ∷ ns) ≡ some (record { id = id; content = memory }))
            (same_identity n.content memory) (record n { content = memory }) n (λ s. own_head t)
            (λ f. absurd (true-false (sym (agrees t) ∙ f))))
        (λ f.
          ap (λ b. if b then some n else get_record id (upsert id memory ns)) f
          ∙ get_record-upsert_own id memory ns a m)
    where
      agrees : (n.id == id) ≡ true → same_identity n.content memory ≡ true
      agrees t =
          same_identity-same n.content memory (identity id)
            (subst (λ i. same_identity n.content (identity i) ≡ true) ((==_iff n.id id).0 t) p) m

      own_head :
          (n.id == id) ≡ true
          → get_record id (record n { content = memory } ∷ ns)
            ≡ some (record { id = id; content = memory })
      own_head t =
          ap (λ b. if b then some (record n { content = memory }) else get_record id ns) t
          ∙ ap (λ i. some (record { id = i; content = memory })) ((==_iff n.id id).0 t)

  pub upsert-AllIdentified :
      (id : ℕ) (memory : CheckpointMemory) (graph : List CheckpointNode)
      → AllIdentified graph
      → same_identity memory (identity id) ≡ true
      → AllIdentified (upsert id memory graph)
  upsert-AllIdentified id memory [] a m = (m, tt)
  upsert-AllIdentified id memory (n ∷ ns) (p, a) m =
      if_ind AllIdentified (n.id == id) _ _
        (λ t. (
          if_ind (λ (x : CheckpointNode). same_identity x.content (identity x.id) ≡ true)
              (same_identity n.content memory) (record n { content = memory }) n
              (λ s.
                subst (λ i. same_identity memory (identity i) ≡ true) (sym ((==_iff n.id id).0 t))
                  m)
              (λ s. p),
          a,
        ))
        (λ f. (p, upsert-AllIdentified id memory ns a m))

ids_eq_refl : (xs : List ℕ) → ids_eq xs xs ≡ true
ids_eq_refl [] = refl
ids_eq_refl (x ∷ xs) = ground (arith, ids_eq_refl xs)

pub same_identity_refl : (a : CheckpointMemory) → same_identity a a ≡ true
same_identity_refl a = ground (arith, ids_eq_refl a.base_memory_ids)
