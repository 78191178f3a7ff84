-- ===== src/Workspace/Coordinator.antt =====
-- coordinator.py, coordinator_services.py and execution.py of
-- agent-host/src/reframe_agent_host/workspace: the operations of the application boundary on sessions,
-- over the daemon, the graph, the BAML functions and processes.
pub mod Selects
pub mod Respects
pub mod Safe
use Prim.Native.String.{String}
use reframe_web.Prelude.{
  ℕ, zero, suc, Bool, true, false, not, ◌&&◌, Option, none, some, List, [], ◌∷◌, ◌++◌, map, ◌==◌,
  if◌then◌else◌, is_nil, length,
}
use reframe_web.Workspace.Planning.{
  Memory, Source, Progress, PlanError, ok, err, out_of_fuel, resolve_memory_sources, mem,
}
use reframe_web.Workspace.Planning
use reframe_web.Workspace.Outbox.{DirectoryNode, Pending, Row, CheckpointNode, manifest_of, pending}
use reframe_web.Workspace.Effects.{
  Outcome, World, Problem, refused, memory_with_continue, no_session, empty_command,
  recursion_limit, latest_closed, unknown_session, no_checkpoint, unplanned, prefetch_failed,
  publication_pending, Resource, mount, database, Request, list_workspaces, create_workspace,
  get_workspace_status, close_workspace, destroy_ephemeral_workspace, prefetch, commit_checkpoint,
  start_process, Prog, pure, raise, handle, ◌>>=◌, ◌>>◌, finally, call, query, request, note, asked,
  daemon_call, mounted,
}
use reframe_web.Workspace.Plans.{
  WorkspacePlan, ResolvedWorkspacePlan, WorkspaceSummary, WorkspaceStatus, Exit, exited, cancelled,
  Environment, resolve_plan, create_project_memory, list_memories,
}
use reframe_web.Workspace.Publication.{
  CheckpointPublication, Publisher, publish_manifest, publish_external, reconcile,
}

-- `_summaries`
unfoldable pub list_summaries : Environment → Prog (List WorkspaceSummary)
list_summaries env =
    request env.publisher.outcome env.publisher.expired list_workspaces
      (λ number. pure (env.summaries number))

abbrev pub latest_of : Bool → List WorkspaceSummary → Prog WorkspaceSummary
latest_of require_active [] = raise no_session
latest_of require_active (latest ∷ rest) =
    if require_active && not latest.is_active
    then raise (latest_closed latest.session_id)
    else pure latest

unfoldable pub latest_summary : Environment → Bool → Prog WorkspaceSummary
latest_summary env require_active = do
  summaries ← list_summaries env
  latest_of require_active summaries

abbrev pub summary_of : ℕ → List WorkspaceSummary → Prog WorkspaceSummary
summary_of session [] = raise (unknown_session session)
summary_of session (summary ∷ rest) =
    let other = summary_of session rest in
    if summary.session_id == session then pure summary else other

unfoldable pub summary_for : Environment → ℕ → Prog WorkspaceSummary
summary_for env session = do summaries ← list_summaries env; summary_of session summaries

unfoldable pub select_session : Environment → Option ℕ → Bool → Prog ℕ
select_session env (some requested) require_active = pure requested
select_session env none require_active = do
  latest ← latest_summary env require_active
  pure latest.session_id

-- The argument of `--continue`: the word `latest`, or a session.
pub data Continued : Type 0 where
  latest : Continued
  session : ℕ → Continued

abbrev pub continued_summary : Environment → Continued → Prog WorkspaceSummary
continued_summary env latest = latest_summary env false
continued_summary env (session id) = summary_for env id

abbrev pub head_publication : Environment → WorkspaceSummary → ℕ → CheckpointPublication
head_publication env summary head = record {
  session_id = summary.session_id;
  session_name = summary.name;
  backing_store = env.publisher.store;
  manifest_id = head;
  base_memory_ids = summary.memory_ids;
  retained_count = none;
}

abbrev pub continue_head : Environment → WorkspaceSummary → Option ℕ → Prog (List ℕ)
continue_head env summary none = raise (no_checkpoint summary.session_id)
continue_head env summary (some head) = do
  found ← publish_external env.publisher (head_publication env summary head)
  pure (found.id ∷ [])

-- `_continue_target`
unfoldable pub continue_target : Environment → Option Continued → Prog (List ℕ)
continue_target env none = pure []
continue_target env (some requested) = do
  summary ← continued_summary env requested
  continue_head env summary summary.head_manifest

-- `_prefetch_session`
unfoldable pub prefetch_session : Environment → ℕ → List String → Prog (Unit {0})
prefetch_session env id paths =
    mounted env.publisher.outcome env.publisher.expired id
      (request env.publisher.outcome env.publisher.expired (prefetch id paths) (λ number. pure tt))

abbrev pub prefetch_created : Environment → ℕ → List String → Prog ℕ
prefetch_created env id [] = pure id
prefetch_created env id (path ∷ paths) =
    handle (prefetch_session env id (path ∷ paths)) (λ e. raise (prefetch_failed id e))
      (λ done. pure id)

abbrev pub or_inherited : List ℕ → List ℕ → List ℕ
or_inherited [] inherited = inherited
or_inherited (id ∷ ids) inherited = id ∷ ids

abbrev pub is_some : Option Continued → Bool
is_some none = false
is_some (some requested) = true

unfoldable pub create_session : Environment → List ℕ → Option Continued → Prog ℕ
create_session env memory_ids continued =
    if not (is_nil memory_ids) && is_some continued then raise memory_with_continue else (do
      inherited ← continue_target env continued
      resolved ← resolve_plan env (or_inherited memory_ids inherited)
      id ←
          request env.publisher.outcome env.publisher.expired
            (create_workspace resolved.memory_sources resolved.scratch_paths)
            (λ number. pure (env.created number))
      prefetch_created env id resolved.prefetch_paths)

unfoldable pub get_status : Environment → Option ℕ → Prog WorkspaceStatus
get_status env requested = do
  id ← select_session env requested false
  request env.publisher.outcome env.publisher.expired (get_workspace_status id)
      (λ number. pure (env.status number))

-- The daemon's answer to a commit: a new manifest is pending, one that is known is refused.
abbrev pub append_pending : Pending → Prog ℕ
append_pending p w =
    if mem p.manifest_id (map manifest_of w.rows)
    then raise refused w
    else pure p.manifest_id
        (record w { rows = w.rows ++ record { publication = p; memory_id = none } ∷ [] })

-- `PublishedCheckpointResult`; its paths are passed on from the daemon.
pub record PublishedCheckpoint : Type 0 where
  pub session_id : ℕ
  pub manifest_id : ℕ
  pub memory_id : ℕ

abbrev pub publish_committed : Environment → ℕ → ℕ → Prog PublishedCheckpoint
publish_committed env id manifest =
    handle (publish_manifest env.publisher manifest) (λ e. raise (publication_pending manifest e))
      (λ found. pure (record { session_id = id; manifest_id = manifest; memory_id = found.id }))

unfoldable pub checkpoint_session :
    Environment → Option ℕ → List String → Bool → Prog PublishedCheckpoint
checkpoint_session env requested paths retain_all = do
  id ← select_session env requested true
  selected ← query env.publisher.outcome (λ number. env.selection number paths)
  manifest ←
      request env.publisher.outcome env.publisher.expired (commit_checkpoint id selected retain_all)
        (λ number. append_pending (env.committed number))
  publish_committed env id manifest

unfoldable pub close_session : Environment → Option ℕ → Prog (Unit {0})
close_session env requested = do
  id ← select_session env requested true
  request env.publisher.outcome env.publisher.expired (close_workspace id) (λ number. pure tt)

unfoldable pub destroy_session : Environment → Option ℕ → Prog (Unit {0})
destroy_session env requested = do
  id ← select_session env requested false
  request env.publisher.outcome env.publisher.expired (destroy_ephemeral_workspace id)
      (λ number. pure tt)

-- The wait for a process: one that is cancelled is terminated and waited for.
abbrev pub wait_for : Environment → Exit → Prog ℕ
wait_for env (exited code) = pure code
wait_for env cancelled = do query env.publisher.outcome (λ number. tt); pure 130

abbrev pub start_command : Environment → ℕ → List String → Prog (Unit {0})
start_command env id command = do
  note (asked (start_process id command))
  query env.publisher.outcome (λ number. tt)

abbrev pub run_process : Environment → ℕ → List String → Prog ℕ
run_process env id command = do
  start_command env id command
  exit ← query env.publisher.outcome env.exit
  wait_for env exit

unfoldable pub run_in_workspace : Environment → ℕ → List String → Prog ℕ
run_in_workspace env id [] = raise empty_command
run_in_workspace env id (word ∷ words) =
    mounted env.publisher.outcome env.publisher.expired id (run_process env id (word ∷ words))

unfoldable pub run_command : Environment → Option ℕ → List String → Prog ℕ
run_command env requested command = do
  id ← select_session env requested true
  run_in_workspace env id command

-- `start` and `close`, which pass on to the daemon client
unfoldable pub reach_daemon : Environment → Prog (Unit {0})
reach_daemon env = daemon_call env.publisher.outcome env.publisher.expired (λ number. pure tt)

-- The coordinator's operations, and what they return.
pub data Operation : Type 0 where
  create : List ℕ → Option Continued → Operation
  status_of close destroy : Option ℕ → Operation
  checkpoint : Option ℕ → List String → Bool → Operation
  run : Option ℕ → List String → Operation
  reconcile_pending : Bool → Operation
  create_project list_all connect disconnect : Operation

pub data Answer : Type 0 where
  session_created exit_code reconciled : ℕ → Answer
  session_status : WorkspaceStatus → Answer
  checkpointed_as : PublishedCheckpoint → Answer
  project_created : DirectoryNode → Answer
  memories_listed : List ℕ → Answer
  done : Answer

abbrev pub as_answer : {A : Type 0} → Prog A → (A → Answer) → Prog Answer
as_answer m answer = m >>= λ a. pure (answer a)

unfoldable pub perform : Environment → Operation → Prog Answer
perform env (create memory_ids continued) =
    as_answer (create_session env memory_ids continued) session_created
perform env (status_of requested) = as_answer (get_status env requested) session_status
perform env (close requested) = as_answer (close_session env requested) (λ u. done)
perform env (destroy requested) = as_answer (destroy_session env requested) (λ u. done)
perform env (checkpoint requested paths retain_all) =
    as_answer (checkpoint_session env requested paths retain_all) checkpointed_as
perform env (run requested command) = as_answer (run_command env requested command) exit_code
perform env (reconcile_pending strict) = as_answer (reconcile env.publisher strict) reconciled
perform env create_project = as_answer (create_project_memory env) project_created
perform env connect = as_answer (reach_daemon env) (λ u. done)
perform env disconnect = as_answer (reach_daemon env) (λ u. done)
perform env list_all = as_answer (list_memories env) memories_listed

-- Operations in any order, whatever each one returns.
unfoldable pub perform_all : Environment → List Operation → World → World
perform_all env [] w = w
perform_all env (operation ∷ operations) w = perform_all env operations (perform env operation w).0
