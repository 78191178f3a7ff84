-- ===== src/Workspace/Publication/Drains.antt =====
-- A reconciliation whose calls all work: nothing stays pending.
use reframe_web.Prelude.{
  ℕ, suc, ◌+◌, ◌≡◌, refl, sym, ap, ◌∙◌, subst, Bool, true, some, List, [], ◌∷◌, ◌++◌, map,
  if◌then◌else◌, length, All, arith,
}
use reframe_web.Workspace.Outbox.{
  Pending, Row, manifest_of, pending, mark, prune, settled, CheckpointMemory, CheckpointNode,
  same_identity, upsert, get_record,
}
use reframe_web.Workspace.Outbox.Identities.{
  AllIdentified, get_record-upsert_own, upsert-AllIdentified, same_identity_refl,
}
use reframe_web.Workspace.Outbox.Marks.{mark-pending}
use reframe_web.Workspace.Outbox.Prunes.{Distinct-prune, pending-prune}
use reframe_web.Workspace.Outbox.Writes.{Distinct, manifests-mark}
use reframe_web.Workspace.Effects.{
  works, World, returned, Prog, collision, publish_failed, resume, released, acquired, database,
  pure, raise, finally, note, daemon_call, query, ◌>>◌,
}
use reframe_web.Workspace.Publication.{
  Publisher, checkpoint_memory, check_published, publish_checkpoint, prepare_and_publish,
  publish_graph, of_pending, answer_completed, complete_publication, publish_outbox, pending_outbox,
  strictly, publish_each, reconcile,
}

-- The publisher whose calls all work.
abbrev pub working : Publisher → Publisher
working publisher = record publisher { outcome = λ number. works }

-- The memory that a pending publication becomes, and its id.
abbrev pub memory_for : Publisher → Pending → CheckpointMemory
memory_for publisher p = checkpoint_memory publisher (of_pending publisher p)

abbrev pub id_for : Publisher → Pending → ℕ
id_for publisher p = publisher.checkpoint_id publisher.store p.manifest_id

-- The node that a pending publication becomes.
abbrev pub node_for : Publisher → Pending → CheckpointNode
node_for publisher p = record { id = id_for publisher p; content = memory_for publisher p }

module _ (publisher : Publisher) (p : Pending) (w : World) where
  abbrev graph' : List CheckpointNode
  graph' = upsert (id_for publisher p) (memory_for publisher p) w.graph

  -- The states in the database, after it, and after the daemon's answer.
  abbrev inside : World
  inside = record {
    calls = suc (suc (suc (suc (suc w.calls))));
    rows = w.rows;
    graph = graph';
    directories = w.directories;
    journal = w.journal ++ acquired database ∷ [];
  }

  abbrev outside : World
  outside = record inside {
    calls = suc inside.calls;
    journal = inside.journal ++ released database ∷ [];
  }

  -- The rows when the daemon answers, if it had to be started
  abbrev left : List Row
  left = prune (publisher.expired outside.calls) w.rows

  abbrev after : World
  after = record outside {
    calls = suc outside.calls;
    rows = mark p.manifest_id (id_for publisher p) left;
  }

  abbrev last : Prog (Unit {0})
  last = query (λ number. works) (λ number. tt) >> note (released database)

  publish_graph_works :
      get_record (id_for publisher p) graph' ≡ some (node_for publisher p)
      → publish_graph (working publisher) (of_pending publisher p) w
        ≡ (outside, returned (node_for publisher p))
  unfolding publish_graph prepare_and_publish publish_checkpoint
  publish_graph_works e =
      ap
        (λ found.
          finally (check_published (id_for publisher p) (memory_for publisher p) found) last inside)
        e
      ∙ ap
          (λ b.
            finally
              (if b then pure (node_for publisher p) else raise (collision (id_for publisher p)))
              last inside)
          (same_identity_refl (memory_for publisher p))

  publish_outbox_works :
      get_record (id_for publisher p) graph' ≡ some (node_for publisher p)
      → settled p.manifest_id (id_for publisher p) (after).rows ≡ true
      → publish_outbox (working publisher) p w ≡ (after, returned (node_for publisher p))
  unfolding publish_outbox
  publish_outbox_works e s =
      ap
        (λ r. resume r raise (λ n. do
          daemon_call (λ number. works) publisher.expired
              (λ number. complete_publication p.manifest_id n.id)
          pure n))
        (publish_graph_works e)
      ∙ ap (λ b. resume (answer_completed b after) raise (λ a. pure (node_for publisher p))) s

-- Every row is of a publication that becomes a node of its id's identity.
module _ (publisher : Publisher) (identity : ℕ → CheckpointMemory) where
  abbrev pub Identified : Pending → Type 0
  Identified p = same_identity (memory_for publisher p) (identity (id_for publisher p)) ≡ true

  publish_each_works :
      (strict : Bool) (ps : List Pending) (published : ℕ) (w : World)
      → pending w.rows ≡ ps
      → Distinct (map manifest_of w.rows)
      → All Identified ps
      → AllIdentified identity w.graph
      → (w' : World) × (publish_each (working publisher) strict ps published w
          ≡ (w', returned (published + length ps)))
        × (pending w'.rows ≡ [])
  unfolding publish_each
  publish_each_works strict [] published w e d a g = (w, ap (λ n. (w, returned n)) (omega arith), e)
  publish_each_works strict (p ∷ ps) published w e d (i, a) g =
      let id = id_for publisher p in
      let read = get_record-upsert_own identity id (memory_for publisher p) w.graph g i in
      let old = publisher.expired (outside publisher p w).calls in
      let rows = prune old w.rows in
      let distinct = Distinct-prune old w.rows d in
      let marked = mark-pending p ps rows id distinct (pending-prune old w.rows ∙ e) in
      let w' = after publisher p w in
      let rest =
        publish_each_works strict ps (suc published) w' marked.0
          (subst Distinct (sym (manifests-mark rows p.manifest_id id)) distinct) a
          (upsert-AllIdentified identity id (memory_for publisher p) w.graph g i) in
      (
        rest.0,
        ap
              (λ r.
                resume r
                  (λ e.
                    strictly strict (publish_failed p.manifest_id e)
                      (publish_each (working publisher) strict ps published))
                  (λ n. publish_each (working publisher) strict ps (suc published)))
              (publish_outbox_works publisher p w read marked.1)
            ∙ (rest.1 ∙ ap (λ n. (rest.0, returned n)) (omega arith)),
        rest.2,
      )

  -- Where every call works, a reconciliation, strict or not, returns the number of the pending
  -- publications and leaves none, from an outbox of distinct manifests, and where no id has two
  -- identities among the nodes of the graph and the pending publications.
  pub reconcile-drains :
      (strict : Bool) (w : World)
      → Distinct (map manifest_of w.rows)
      → All Identified (pending w.rows)
      → AllIdentified identity w.graph
      → (w' : World) × (reconcile (working publisher) strict w
          ≡ (w', returned (length (pending w.rows))))
        × (pending w'.rows ≡ [])
  unfolding reconcile pending_outbox
  reconcile-drains strict w d a g =
      let old = publisher.expired w.calls in
      let rows' = prune old w.rows in
      let begin : World = record w { calls = suc w.calls; rows = rows' } in
      let same = pending-prune old w.rows in
      let all =
        publish_each_works strict (pending rows') 0 begin refl (Distinct-prune old w.rows d)
          (subst (All Identified) (sym same) a) g in
      (
        all.0,
        all.1
            ∙ (ap (λ ps. (all.0, returned (0 + length ps))) same
                ∙ ap (λ n. (all.0, returned n)) (omega arith)),
        all.2,
      )
