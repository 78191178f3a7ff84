-- ===== src/Workspace/Plans/Respects.antt =====
-- A relation that calls respect is respected by the resolution of a plan.
use reframe_web.Prelude.{ℕ, Option, none, some, List, ◌==◌, if_ind, is_nil}
use reframe_web.Workspace.Planning.{Progress, ok, err, out_of_fuel, resolve_memory_sources, mem}
use reframe_web.Workspace.Planning
use reframe_web.Workspace.Effects.{World, disappeared, collision, Prog, pure, ◌>>◌, call, query}
use reframe_web.Workspace.Outbox.{DirectoryMemory, DirectoryNode, upsert_directory, get_directory}
use reframe_web.Workspace.Effects.Frames.{
  Frame, Respects, pure-Respects, raise-Respects, then-Respects, call-Respects, query-Respects,
  in_database-Respects,
}
use reframe_web.Workspace.Plans.{
  project_memory, check_directory, publish_directory, prepare_project, create_project_memory,
  prepare_list, list_memories, WorkspacePlan, Environment, planned, resolve_workspace_plan,
  resolve_plan,
}

module _ {R : World → World → Type 0} (frame : Frame R) where
  planned-Respects :
      (plan : WorkspacePlan) (r : Planning.Result (Progress ℕ ℕ)) → Respects R (planned plan r)
  planned-Respects plan (ok progress) w = frame.reflexive w
  planned-Respects plan (err problem) w = frame.reflexive w
  planned-Respects plan out_of_fuel w = frame.reflexive w

  resolve_workspace_plan-Respects :
      (env : Environment) (plan : WorkspacePlan) → Respects R (resolve_workspace_plan env plan)
  unfolding resolve_workspace_plan
  resolve_workspace_plan-Respects env plan = call-Respects frame env.publisher.outcome _ (λ n.
      planned-Respects plan
        (resolve_memory_sources (env.memory n) (env.is_dir n) env.fuel plan.memory_ids))

  pub resolve_plan-Respects : (env : Environment) (ids : List ℕ) → Respects R (resolve_plan env ids)
  unfolding resolve_plan
  resolve_plan-Respects env ids =
      then-Respects frame (query env.publisher.outcome (λ number. env.plan number ids)) _
        (query-Respects frame env.publisher.outcome (λ number. env.plan number ids))
        (λ plan.
          if_ind (Respects R) (is_nil plan.memory_ids) _ _ (λ e w. frame.reflexive w)
            (λ e.
              in_database-Respects frame env.publisher.outcome (resolve_workspace_plan env plan)
                (resolve_workspace_plan-Respects env plan)))

  check_directory-Respects :
      (id : ℕ) (memory : DirectoryMemory) (found : Option DirectoryNode)
      → Respects R (check_directory id memory found)
  check_directory-Respects id memory none = raise-Respects frame DirectoryNode (disappeared id)
  check_directory-Respects id memory (some n) =
      if_ind (Respects R) (n.content.source_path == memory.source_path) _ _
        (λ e. pure-Respects frame n) (λ e. raise-Respects frame DirectoryNode (collision id))

  prepare_list-Respects : (env : Environment) → Respects R (prepare_list env)
  unfolding prepare_list
  prepare_list-Respects env =
      let step : Prog (Unit {0}) = query env.publisher.outcome (λ n. tt) in
      let list : Prog (List ℕ) = query env.publisher.outcome env.listed in
      then-Respects frame step (λ a. step >> list)
        (query-Respects frame env.publisher.outcome (λ n. tt))
        (λ a.
          then-Respects frame step (λ b. list)
            (query-Respects frame env.publisher.outcome (λ n. tt))
            (λ b. query-Respects frame env.publisher.outcome env.listed))

  pub list_memories-Respects : (env : Environment) → Respects R (list_memories env)
  unfolding list_memories
  list_memories-Respects env =
      in_database-Respects frame env.publisher.outcome (prepare_list env)
        (prepare_list-Respects env)

  module _
      (lists : (w : World) (ds : List DirectoryNode) → R w (record w { directories = ds })) where
    publish_directory-Respects :
        (env : Environment) (memory : DirectoryMemory) → Respects R (publish_directory env memory)
    unfolding publish_directory
    publish_directory-Respects env memory =
        let id = env.directory_id memory.source_path in
        then-Respects frame
          (call env.publisher.outcome (λ number w.
            pure tt (record w { directories = upsert_directory id memory w.directories })))
          _
          (call-Respects frame env.publisher.outcome _
            (λ n w. lists w (upsert_directory id memory w.directories)))
          (λ a.
            then-Respects frame
              (call env.publisher.outcome (λ number w. pure (get_directory id w.directories) w))
              (check_directory id memory)
              (call-Respects frame env.publisher.outcome _ (λ n w. frame.reflexive w))
              (check_directory-Respects id memory))

    prepare_project-Respects : (env : Environment) → Respects R (prepare_project env)
    unfolding prepare_project
    prepare_project-Respects env =
        let step : Prog (Unit {0}) = query env.publisher.outcome (λ n. tt) in
        let publish = publish_directory env (project_memory env) in
        then-Respects frame step (λ a. step >> publish)
          (query-Respects frame env.publisher.outcome (λ n. tt))
          (λ a.
            then-Respects frame step (λ b. publish)
              (query-Respects frame env.publisher.outcome (λ n. tt))
              (λ b. publish_directory-Respects env (project_memory env)))

    pub create_project_memory-Respects :
        (env : Environment) → Respects R (create_project_memory env)
    unfolding create_project_memory
    create_project_memory-Respects env =
        in_database-Respects frame env.publisher.outcome (prepare_project env)
          (prepare_project-Respects env)
