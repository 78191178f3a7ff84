-- ===== src/Workspace/Publication/Respects.antt =====
-- A relation that the calls of the publisher respect is respected by each of its methods.
use reframe_web.Prelude.{ℕ, suc, Bool, true, false, Option, none, some, List, [], ◌∷◌, if_ind}
use reframe_web.Workspace.Outbox.{
  prune, Pending, DirectoryNode, CheckpointMemory, CheckpointNode, mark, settled, same_identity,
  upsert, get_record,
}
use reframe_web.Workspace.Outbox.Writes.{Holds}
use reframe_web.Workspace.Effects.{
  Outcome, works, lost, fails, World, Problem, collision, disappeared, missing_manifest,
  publish_failed, outbox_unread, Result, returned, raised, Prog, pure, raise, resume, ◌>>◌, attempt,
  daemon_call, call, query,
}
use reframe_web.Workspace.Effects.Frames.{
  Frame, Respects, pure-Respects, raise-Respects, handle-Respects, then-Respects, call-Respects,
  query-Respects, in_database-Respects, daemon_call-Respects, resume_on,
}
use reframe_web.Workspace.Publication.{
  CheckpointPublication, Publisher, checkpoint_memory, check_published, publish_checkpoint,
  prepare_and_publish, publish_graph, of_pending, answer_completed, complete_publication,
  publish_outbox, pending_outbox, find_pending, publish_found, publish_manifest, strictly,
  publish_each, reconcile,
}
use reframe_web.Workspace.Publication.Holds.{Post, publish_graph-Holds}

-- A frame whose relation allows what the publisher writes: a node of the graph, and a row that is
-- marked once the graph has its manifest.
pub record Publishing (R : World → World → Type 0) : Type 0 where
  pub frame : Frame R
  pub upserts :
      (w : World) (id : ℕ) (memory : CheckpointMemory)
      → R w (record w { graph = upsert id memory w.graph })
  pub lists : (w : World) (ds : List DirectoryNode) → R w (record w { directories = ds })
  pub marks :
      (w : World) (manifest id : ℕ)
      → Holds w.graph id manifest
      → R w (record w { rows = mark manifest id w.rows })

module _ {R : World → World → Type 0} (p : Publishing R) where
  check_published-Respects :
      (id : ℕ) (memory : CheckpointMemory) (found : Option CheckpointNode)
      → Respects R (check_published id memory found)
  check_published-Respects id memory none w =
      raise-Respects p.frame CheckpointNode (disappeared id) w
  check_published-Respects id memory (some n) w =
      if_ind (λ m. R w (m w).0) (same_identity n.content memory) (pure n) (raise (collision id))
        (λ e. p.frame.reflexive w) (λ e. p.frame.reflexive w)

  publish_checkpoint-Respects :
      (publisher : Publisher) (memory : CheckpointMemory)
      → Respects R (publish_checkpoint publisher memory)
  unfolding publish_checkpoint
  publish_checkpoint-Respects publisher memory =
      let id = publisher.checkpoint_id memory.backing_store memory.manifest_id in
      then-Respects p.frame
        (call publisher.outcome
          (λ number w. pure tt (record w { graph = upsert id memory w.graph })))
        _ (call-Respects p.frame publisher.outcome _ (λ n w. p.upserts w id memory))
        (λ a.
          then-Respects p.frame
            (call publisher.outcome (λ number w. pure (get_record id w.graph) w))
            (check_published id memory)
            (call-Respects p.frame publisher.outcome _ (λ n w. p.frame.reflexive w))
            (check_published-Respects id memory))

  prepare-Respects :
      (publisher : Publisher) (memory : CheckpointMemory)
      → Respects R (prepare_and_publish publisher memory)
  unfolding prepare_and_publish
  prepare-Respects publisher memory =
      let step : Prog (Unit {0}) = query publisher.outcome (λ n. tt) in
      then-Respects p.frame step (λ a. step >> publish_checkpoint publisher memory)
        (query-Respects p.frame publisher.outcome (λ n. tt))
        (λ a.
          then-Respects p.frame step (λ b. publish_checkpoint publisher memory)
            (query-Respects p.frame publisher.outcome (λ n. tt))
            (λ b. publish_checkpoint-Respects publisher memory))

  pub publish_graph-Respects :
      (publisher : Publisher) (c : CheckpointPublication) → Respects R (publish_graph publisher c)
  unfolding publish_graph
  publish_graph-Respects publisher c =
      in_database-Respects p.frame publisher.outcome
        (prepare_and_publish publisher (checkpoint_memory publisher c))
        (prepare-Respects publisher (checkpoint_memory publisher c))

  answer_completed-Respects : (b : Bool) → Respects R (answer_completed b)
  answer_completed-Respects true w = p.frame.reflexive w
  answer_completed-Respects false w = p.frame.reflexive w

  complete-Respects :
      (manifest id : ℕ) (w : World)
      → Holds w.graph id manifest
      → R w (complete_publication manifest id w).0
  complete-Respects manifest id w h =
      let w' : World = record w { rows = mark manifest id w.rows } in
      let answer = answer_completed (settled manifest id w'.rows) in
      p.frame.transitive w w' (answer w').0 (p.marks w manifest id h)
        (answer_completed-Respects (settled manifest id w'.rows) w')

  complete_attempt :
      (o : Outcome) (manifest id : ℕ) (u w : World)
      → R u w
      → Holds w.graph id manifest
      → R u (attempt o (complete_publication manifest id) w).0
  complete_attempt works manifest id u w r h =
      p.frame.transitive u w _ r (complete-Respects manifest id w h)
  complete_attempt lost manifest id u w r h =
      p.frame.transitive u w _ r (complete-Respects manifest id w h)
  complete_attempt fails manifest id u w r h = r

  published_on :
      (outcome : ℕ → Outcome) (expired : ℕ → ℕ → Bool) (manifest : ℕ) (u : World)
      (reached : World × Result CheckpointNode)
      → R u reached.0
      → Post (λ n graph. Holds graph n.id manifest) reached
      → R u
          (resume reached raise (λ n. do
            daemon_call outcome expired (λ number. complete_publication manifest n.id)
            pure n)).0
  published_on outcome expired manifest u (w, returned n) r h =
      let awake : World = record w { rows = prune (expired w.calls) w.rows } in
      let w' : World = record awake { calls = suc w.calls } in
      resume_on p.frame u (attempt (outcome w.calls) (complete_publication manifest n.id) w') raise
        (λ a. pure n)
        (complete_attempt (outcome w.calls) manifest n.id u w'
          (p.frame.transitive u awake w'
            (p.frame.transitive u w awake r (p.frame.prunes w (expired w.calls)))
            (p.frame.counts awake (suc w.calls)))
          h)
        (raise-Respects p.frame CheckpointNode) (λ a. pure-Respects p.frame n)
  published_on outcome expired manifest u (w, raised e) r h = r

  pub publish_outbox-Respects :
      (publisher : Publisher) (c : Pending) → Respects R (publish_outbox publisher c)
  unfolding publish_outbox
  publish_outbox-Respects publisher c w =
      published_on publisher.outcome publisher.expired c.manifest_id w
        (publish_graph publisher (of_pending publisher c) w)
        (publish_graph-Respects publisher (of_pending publisher c) w)
        (publish_graph-Holds publisher (of_pending publisher c) w)

  pending_outbox-Respects : (publisher : Publisher) → Respects R (pending_outbox publisher)
  unfolding pending_outbox
  pending_outbox-Respects publisher =
      daemon_call-Respects p.frame publisher.outcome publisher.expired _
        (λ n w. p.frame.reflexive w)

  publish_found-Respects :
      (publisher : Publisher) (manifest : ℕ) (found : Option Pending)
      → Respects R (publish_found publisher manifest found)
  publish_found-Respects publisher manifest none =
      raise-Respects p.frame CheckpointNode (missing_manifest manifest)
  publish_found-Respects publisher manifest (some c) = publish_outbox-Respects publisher c

  pub publish_manifest-Respects :
      (publisher : Publisher) (manifest : ℕ) → Respects R (publish_manifest publisher manifest)
  unfolding publish_manifest
  publish_manifest-Respects publisher manifest =
      then-Respects p.frame (pending_outbox publisher) _ (pending_outbox-Respects publisher)
        (λ ps. publish_found-Respects publisher manifest (find_pending manifest ps))

  strictly-Respects :
      (strict : Bool) (problem : Problem) (otherwise : Prog ℕ)
      → Respects R otherwise
      → Respects R (strictly strict problem otherwise)
  strictly-Respects true problem otherwise r = raise-Respects p.frame ℕ problem
  strictly-Respects false problem otherwise r = r

  publish_each-Respects :
      (publisher : Publisher) (strict : Bool) (ps : List Pending) (published : ℕ)
      → Respects R (publish_each publisher strict ps published)
  unfolding publish_each
  publish_each-Respects publisher strict [] published = pure-Respects p.frame published
  publish_each-Respects publisher strict (c ∷ ps) published =
      handle-Respects p.frame (publish_outbox publisher c) _ _ (publish_outbox-Respects publisher c)
        (λ e.
          strictly-Respects strict (publish_failed c.manifest_id e) _
            (publish_each-Respects publisher strict ps published))
        (λ n. publish_each-Respects publisher strict ps (suc published))

  pub reconcile-Respects :
      (publisher : Publisher) (strict : Bool) → Respects R (reconcile publisher strict)
  unfolding reconcile
  reconcile-Respects publisher strict =
      handle-Respects p.frame (pending_outbox publisher) _ _ (pending_outbox-Respects publisher)
        (λ e. strictly-Respects strict (outbox_unread e) (pure 0) (pure-Respects p.frame {A = ℕ} 0))
        (λ ps. publish_each-Respects publisher strict ps 0)
