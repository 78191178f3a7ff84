-- ===== src/Workspace/Publication.antt =====
-- publication_service.py of agent-host/src/reframe_agent_host/workspace: the daemon's outbox is
-- published into the memory graph. Where a call answers, what it answers is the environment's.
pub mod Holds
pub mod Respects
pub mod Drains
use Prim.Native.String.{String, ◌++◌}
use reframe_web.Prelude.{
  ℕ, zero, suc, Bool, true, false, Option, none, some, List, [], ◌∷◌, ◌==◌, if◌then◌else◌,
}
use reframe_web.Workspace.Outbox.{
  Pending, Row, CheckpointMemory, CheckpointNode, pending, mark, settled, same_identity, upsert,
  get_record,
}
use reframe_web.Workspace.Effects.{
  Outcome, World, Problem, disappeared, collision, refused, missing_manifest, outbox_unread,
  publish_failed, Resource, database, Prog, pure, raise, handle, ◌>>=◌, ◌>>◌, call, query,
  daemon_call, in_database,
}

pub record CheckpointPublication : Type 0 where
  pub session_id : ℕ
  pub session_name : String
  pub backing_store : ℕ
  pub manifest_id : ℕ
  pub base_memory_ids : List ℕ
  pub retained_count : Option ℕ

-- What the publisher is given: whether each call works, what a daemon that is started for it prunes, the daemon's store, the digest that is a
-- checkpoint's memory id, and the decimals of a number.
pub record Publisher : Type 0 where
  pub outcome : ℕ → Outcome
  pub expired : ℕ → ℕ → Bool
  pub store : ℕ
  pub checkpoint_id : ℕ → ℕ → ℕ
  pub decimal : ℕ → String

abbrev pub counted : Publisher → Option ℕ → String
counted publisher none = "selected files"
counted publisher (some count) = publisher.decimal count ++ " retained files"

abbrev pub publication_description : Publisher → Option ℕ → String
publication_description publisher count =
    "Immutable session checkpoint containing " ++ counted publisher count

abbrev pub checkpoint_memory : Publisher → CheckpointPublication → CheckpointMemory
checkpoint_memory publisher p = record {
  title = p.session_name ++ " checkpoint";
  description = publication_description publisher p.retained_count;
  backing_store = p.backing_store;
  manifest_id = p.manifest_id;
  base_memory_ids = p.base_memory_ids;
}

-- The checks of `_publish` on what it reads back.
abbrev pub check_published : ℕ → CheckpointMemory → Option CheckpointNode → Prog CheckpointNode
check_published id memory none = raise (disappeared id)
check_published id memory (some found) =
    if same_identity found.content memory then pure found else raise (collision id)

-- `publish_checkpoint` of the store of filesystem memories
unfoldable pub publish_checkpoint : Publisher → CheckpointMemory → Prog CheckpointNode
publish_checkpoint publisher memory =
    let id = publisher.checkpoint_id memory.backing_store memory.manifest_id in
    do
      call publisher.outcome (λ number w. pure tt (record w { graph = upsert id memory w.graph }))
      found ← call publisher.outcome (λ number w. pure (get_record id w.graph) w)
      check_published id memory found

-- The block of `_publish_graph`: the schema, the root and the node.
unfoldable pub prepare_and_publish : Publisher → CheckpointMemory → Prog CheckpointNode
prepare_and_publish publisher memory = do
  query publisher.outcome (λ number. tt)
  query publisher.outcome (λ number. tt)
  publish_checkpoint publisher memory

-- `_publish_graph`
unfoldable pub publish_graph : Publisher → CheckpointPublication → Prog CheckpointNode
publish_graph publisher p =
    in_database publisher.outcome (prepare_and_publish publisher (checkpoint_memory publisher p))

abbrev pub of_pending : Publisher → Pending → CheckpointPublication
of_pending publisher p = record {
  session_id = p.session_id;
  session_name = p.session_name;
  backing_store = publisher.store;
  manifest_id = p.manifest_id;
  base_memory_ids = p.base_memory_ids;
  retained_count = some p.retained_count;
}

abbrev pub answer_completed : Bool → Prog (Unit {0})
answer_completed true = pure tt
answer_completed false = raise refused

-- The daemon's answer to `complete_checkpoint_publication`
abbrev pub complete_publication : ℕ → ℕ → Prog (Unit {0})
complete_publication manifest id w =
    let rows' = mark manifest id w.rows in
    answer_completed (settled manifest id rows') (record w { rows = rows' })

-- `_publish_outbox`
unfoldable pub publish_outbox : Publisher → Pending → Prog CheckpointNode
publish_outbox publisher p = do
  node ← publish_graph publisher (of_pending publisher p)
  daemon_call publisher.outcome publisher.expired
      (λ number. complete_publication p.manifest_id node.id)
  pure node

-- `_pending_outbox`
unfoldable pub pending_outbox : Publisher → Prog (List Pending)
pending_outbox publisher =
    daemon_call publisher.outcome publisher.expired (λ number w. pure (pending w.rows) w)

abbrev pub find_pending : ℕ → List Pending → Option Pending
find_pending manifest [] = none
find_pending manifest (p ∷ ps) =
    let rest = find_pending manifest ps in if p.manifest_id == manifest then some p else rest

abbrev pub publish_found : Publisher → ℕ → Option Pending → Prog CheckpointNode
publish_found publisher manifest none = raise (missing_manifest manifest)
publish_found publisher manifest (some p) = publish_outbox publisher p

unfoldable pub publish_manifest : Publisher → ℕ → Prog CheckpointNode
publish_manifest publisher manifest = do
  publications ← pending_outbox publisher
  publish_found publisher manifest (find_pending manifest publications)

-- `publish_external`
abbrev pub publish_external : Publisher → CheckpointPublication → Prog CheckpointNode
publish_external publisher p = publish_graph publisher p

abbrev pub strictly : {A : Type 0} → Bool → Problem → Prog A → Prog A
strictly true problem otherwise = raise problem
strictly false problem otherwise = otherwise

-- The loop of `reconcile`
unfoldable pub publish_each : Publisher → Bool → List Pending → ℕ → Prog ℕ
publish_each publisher strict [] published = pure published
publish_each publisher strict (p ∷ ps) published =
    handle (publish_outbox publisher p)
      (λ e.
        strictly strict (publish_failed p.manifest_id e)
          (publish_each publisher strict ps published))
      (λ node. publish_each publisher strict ps (suc published))

unfoldable pub reconcile : Publisher → Bool → Prog ℕ
reconcile publisher strict =
    handle (pending_outbox publisher) (λ e. strictly strict (outbox_unread e) (pure 0))
      (λ publications. publish_each publisher strict publications 0)
