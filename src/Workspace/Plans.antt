-- ===== src/Workspace/Plans.antt =====
-- memory_service.py of agent-host/src/reframe_agent_host/workspace, with `resolve_workspace_plan` and
-- `workspace_scratch_paths` of planning.py: the plan that a BAML function gives for a session, and its
-- sources. What the calls answer is the environment's, which the coordinator shares.
pub mod Respects
use Prim.Native.String
use Prim.Native.String.{String}
use reframe_web.Prelude.{
  ℕ, zero, suc, Bool, true, false, not, ◌&&◌, Option, none, some, List, [], ◌∷◌, ◌++◌, map, ◌==◌,
  if◌then◌else◌, is_nil, length,
}
use reframe_web.Workspace.Planning.{
  Memory, Source, Progress, PlanError, ok, err, out_of_fuel, resolve_memory_sources, mem,
}
use reframe_web.Workspace.Planning
use reframe_web.Workspace.Outbox.{
  Pending, DirectoryMemory, DirectoryNode, upsert_directory, get_directory,
}
use reframe_web.Workspace.Effects.{
  Outcome, World, Problem, refused, memory_with_continue, no_session, empty_command,
  recursion_limit, latest_closed, unknown_session, no_checkpoint, unplanned, disappeared, collision,
  prefetch_failed, publication_pending, Resource, mount, database, Request, list_workspaces,
  create_workspace, get_workspace_status, close_workspace, destroy_ephemeral_workspace, prefetch,
  commit_checkpoint, start_process, Prog, pure, raise, handle, ◌>>=◌, ◌>>◌, finally, call, query,
  request, in_database,
}
use reframe_web.Workspace.Publication.{Publisher}

pub data Materialization : Type 0 where
  lazy prefetched direct_disk : Materialization

pub data Retention : Type 0 where
  discard cache_only checkpointed always : Retention

pub record PolicyRule : Type 0 where
  pub path_glob : String
  pub materialization : Materialization
  pub retention : Retention

pub record WorkspacePlan : Type 0 where
  pub memory_ids : List ℕ
  pub prefetch_paths : List String
  pub rules : List PolicyRule

pub record ResolvedWorkspacePlan : Type 0 where
  pub memory_sources : List (Source ℕ ℕ)
  pub prefetch_paths : List String
  pub scratch_paths : List String

pub record WorkspaceSummary : Type 0 where
  pub session_id : ℕ
  pub name : String
  pub is_active : Bool
  pub head_manifest : Option ℕ
  pub memory_ids : List ℕ

pub record WorkspaceStatus : Type 0 where
  pub session_id : ℕ
  pub is_active : Bool
  pub changes : List String

-- How a process ends: it exits, or the wait for it is cancelled.
pub data Exit : Type 0 where
  exited : ℕ → Exit
  cancelled : Exit

-- What the daemon, the graph, the BAML functions and processes answer, by the number of the call.
-- `fuel` is the depth at which the resolution of a plan exceeds the recursion limit.
pub record Environment : Type 0 where
  pub publisher : Publisher
  pub summaries : ℕ → List WorkspaceSummary
  pub status : ℕ → WorkspaceStatus
  pub created : ℕ → ℕ
  pub committed : ℕ → Pending
  pub exit : ℕ → Exit
  pub plan : ℕ → List ℕ → WorkspacePlan
  pub selection : ℕ → List String → List String
  pub memory : ℕ → ℕ → Option (Memory ℕ ℕ)
  pub is_dir : ℕ → ℕ → Bool
  pub fuel : ℕ
  pub directory_id : ℕ → ℕ
  pub project_name : String
  pub project_path : ℕ
  pub listed : ℕ → List ℕ

abbrev pub is_scratch : Materialization → Retention → Bool
is_scratch direct_disk discard = true
is_scratch materialization retention = false

abbrev pub workspace_scratch_paths : List PolicyRule → List String
workspace_scratch_paths [] = []
workspace_scratch_paths (rule ∷ rules) =
    let rest = workspace_scratch_paths rules in
    if is_scratch rule.materialization rule.retention then rule.path_glob ∷ rest else rest

abbrev pub planned : WorkspacePlan → Planning.Result (Progress ℕ ℕ) → Prog ResolvedWorkspacePlan
planned plan (ok progress) = pure (record {
  memory_sources = progress.sources;
  prefetch_paths = plan.prefetch_paths;
  scratch_paths = workspace_scratch_paths plan.rules;
})
planned plan (err problem) = raise (unplanned problem)
planned plan out_of_fuel = raise recursion_limit

-- `resolve_workspace_plan`, whose reads of the graph are one call.
unfoldable pub resolve_workspace_plan : Environment → WorkspacePlan → Prog ResolvedWorkspacePlan
resolve_workspace_plan env plan = call env.publisher.outcome (λ number.
    planned plan
      (resolve_memory_sources (env.memory number) (env.is_dir number) env.fuel plan.memory_ids))

-- `resolve_plan`
unfoldable pub resolve_plan : Environment → List ℕ → Prog ResolvedWorkspacePlan
resolve_plan env memory_ids = do
  plan ← query env.publisher.outcome (λ number. env.plan number memory_ids)
  (if is_nil plan.memory_ids
      then pure (record {
        memory_sources = [];
        prefetch_paths = plan.prefetch_paths;
        scratch_paths = workspace_scratch_paths plan.rules;
      })
      else in_database env.publisher.outcome (resolve_workspace_plan env plan))

abbrev pub project_memory : Environment → DirectoryMemory
project_memory env = record {
  title = env.project_name;
  description = String.◌++◌ "Filesystem memory for the " (String.◌++◌ env.project_name " project");
  source_path = env.project_path;
}

-- The checks of `_publish`, on a directory
abbrev pub check_directory : ℕ → DirectoryMemory → Option DirectoryNode → Prog DirectoryNode
check_directory id memory none = raise (disappeared id)
check_directory id memory (some found) =
    if found.content.source_path == memory.source_path then pure found else raise (collision id)

-- `publish_directory`
unfoldable pub publish_directory : Environment → DirectoryMemory → Prog DirectoryNode
publish_directory env memory =
    let id = env.directory_id memory.source_path in
    do
      call env.publisher.outcome (λ number w.
          pure tt (record w { directories = upsert_directory id memory w.directories }))
      found ← call env.publisher.outcome (λ number w. pure (get_directory id w.directories) w)
      check_directory id memory found

-- The block of `create_project_memory`
unfoldable pub prepare_project : Environment → Prog DirectoryNode
prepare_project env = do
  query env.publisher.outcome (λ number. tt)
  query env.publisher.outcome (λ number. tt)
  publish_directory env (project_memory env)

unfoldable pub create_project_memory : Environment → Prog DirectoryNode
create_project_memory env = in_database env.publisher.outcome (prepare_project env)

-- The block of `list_memories`; the memories are given by their ids.
unfoldable pub prepare_list : Environment → Prog (List ℕ)
prepare_list env = do
  query env.publisher.outcome (λ number. tt)
  query env.publisher.outcome (λ number. tt)
  query env.publisher.outcome env.listed

unfoldable pub list_memories : Environment → Prog (List ℕ)
list_memories env = in_database env.publisher.outcome (prepare_list env)
