-- ===== src/Workspace/Publication/Holds.antt =====
-- What a publication that returns has written into the graph.
use reframe_web.Prelude.{
  ℕ, suc, ◌≡◌, refl, sym, ap, ◌∙◌, subst, inl, inr, Option, none, some, List, [], ◌∷◌, ◌++◌, ◌==◌,
  ==_iff, if_ind, Bool-cases, arith,
}
use reframe_web.Workspace.Outbox.{
  CheckpointMemory, CheckpointNode, same_identity, upsert, get_record,
}
use reframe_web.Workspace.Outbox.Writes.{Holds, same_identity-manifest}
use reframe_web.Workspace.Effects.{
  collision, Outcome, works, lost, fails, Resource, database, acquired, released, World, Problem,
  Result, returned, raised, Prog, pure, raise, resume, handle, ◌>>◌, finally, note, attempt, call,
  query, in_database,
}
use reframe_web.Workspace.Publication.{
  CheckpointPublication, Publisher, checkpoint_memory, check_published, publish_checkpoint,
  prepare_and_publish, publish_graph,
}

-- What a result says of the graph.
abbrev pub Post : {A : Type 0} → (A → List CheckpointNode → Type 0) → World × Result A → Type 0
Post Q (w, returned a) = Q a w.graph
Post Q (w, raised e) = Unit

module _ {A : Type 0} (Q : A → List CheckpointNode → Type 0) where
  resume-Post :
      {B : Type 0} (r : World × Result B) (k : B → Prog A)
      → ((b : B) (w : World) → Post Q (k b w))
      → Post Q (resume r raise k)
  resume-Post (w, returned b) k ks = ks b w
  resume-Post (w, raised e) k ks = tt

  pub then-Post :
      {B : Type 0} (m : Prog B) (k : B → Prog A)
      → ((b : B) (w : World) → Post Q (k b w))
      → (w : World) → Post Q (handle m raise k w)
  then-Post m k ks w = resume-Post (m w) k ks

  attempt-Post :
      (o : Outcome) (effect : Prog A) (w : World) → Post Q (effect w) → Post Q (attempt o effect w)
  attempt-Post works effect w p = p
  attempt-Post lost effect w p = tt
  attempt-Post fails effect w p = tt

  -- A query and a note do not touch the graph.
  queried :
      (o : Outcome) (r : Resource) (w : World) (a : A)
      → Q a w.graph
      → Post Q (
          resume
            (resume (attempt o (pure tt) w) raise (λ b. note (released r)))
            raise
            (λ b. pure a))
  queried works r w a q = q
  queried lost r w a q = tt
  queried fails r w a q = tt

  queried_raise :
      (o : Outcome) (r : Resource) (w : World) (e : Problem)
      → Post Q (
          resume
            (resume (attempt o (pure tt) w) raise (λ b. note (released r)))
            raise
            (λ b. raise e))
  queried_raise works r w e = tt
  queried_raise lost r w e = tt
  queried_raise fails r w e = tt

  closed :
      (outcome : ℕ → Outcome) (u : World) (reached : World × Result A)
      → Post Q reached
      → Post Q (finally (λ w. reached) (do query outcome (λ n. tt); note (released database)) u)
  closed outcome u (w, returned a) q =
      queried (outcome w.calls) database (record w { calls = suc w.calls }) a q
  closed outcome u (w, raised e) q =
      queried_raise (outcome w.calls) database (record w { calls = suc w.calls }) e

  pub within-Post :
      (outcome : ℕ → Outcome) (body : Prog A)
      → ((w : World) → Post Q (body w))
      → (w : World) → Post Q (in_database outcome body w)
  within-Post outcome body bs =
      then-Post (query outcome (λ n. tt))
        (λ u. do
          note (acquired database)
          finally body (do query outcome (λ n. tt); note (released database)))
        (λ u w.
          closed outcome w (body (record w { journal = w.journal ++ acquired database ∷ [] }))
            (bs (record w { journal = w.journal ++ acquired database ∷ [] })))

get_record_id :
    (id : ℕ) (graph : List CheckpointNode) (n : CheckpointNode)
    → get_record id graph ≡ some n
    → n.id ≡ id
get_record_id id [] n e = absurd (ground arith)
get_record_id id (x ∷ xs) n e = elim (Bool-cases (x.id == id)) [
  | inl t ↦ (let same : x ≡ n = ground arith in ap (λ y. y.id) (sym same) ∙ (==_iff (x.id) id).0 t)
  | inr t ↦ get_record_id id xs n (ground arith)
]

-- What was read from some graph, and then checked.
checked :
    (id : ℕ) (memory : CheckpointMemory) (w : World) (found : Option CheckpointNode)
    → get_record id w.graph ≡ found
    → Post (λ n graph. Holds graph n.id memory.manifest_id) (check_published id memory found w)
checked id memory w none e = tt
checked id memory w (some n) e =
    if_ind (λ m. Post (λ x graph. Holds graph x.id memory.manifest_id) (m w))
      (same_identity n.content memory) (pure n) (raise (collision id))
      (λ s. (
        n,
        subst (λ i. get_record i w.graph ≡ some n) (sym (get_record_id id w.graph n e)) e,
        same_identity-manifest n.content memory s,
      ))
      (λ s. tt)

-- The read of the node and the check of it are two calls, between which the graph stands.
read_back :
    (id : ℕ) (memory : CheckpointMemory) (o : Outcome) (w : World)
    → Post
        (λ n graph. Holds graph n.id memory.manifest_id)
        (resume
          (attempt o (λ v. pure (get_record id v.graph) v) w)
          raise
          (check_published id memory))
read_back id memory works w = checked id memory w (get_record id w.graph) refl
read_back id memory lost w = tt
read_back id memory fails w = tt

pub publish_graph-Holds :
    (publisher : Publisher) (p : CheckpointPublication) (w : World)
    → Post (λ n graph. Holds graph n.id p.manifest_id) (publish_graph publisher p w)
unfolding publish_graph prepare_and_publish publish_checkpoint
publish_graph-Holds publisher p =
    let Q : CheckpointNode → List CheckpointNode → Type 0 =
      λ n graph. Holds graph n.id p.manifest_id in
    let memory = checkpoint_memory publisher p in
    let id = publisher.checkpoint_id p.backing_store p.manifest_id in
    within-Post Q publisher.outcome (prepare_and_publish publisher memory) (
      then-Post Q (query publisher.outcome (λ number. tt)) _ (λ a.
        then-Post Q (query publisher.outcome (λ number. tt)) _ (λ b.
          then-Post Q
            (call publisher.outcome
              (λ number w. pure tt (record w { graph = upsert id memory w.graph })))
            _
            (λ c w.
              read_back id memory (publisher.outcome w.calls) (record w { calls = suc w.calls })))))
