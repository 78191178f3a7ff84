-- ===== src/Workspace/Coordinator/Respects.antt =====
-- A relation that the coordinator's calls respect is respected by each of its operations.
use Prim.Native.String.{String}
use reframe_web.Prelude.{
  ℕ, ◌≡◌, Bool, true, false, not, ◌&&◌, Option, none, List, [], ◌∷◌, ◌++◌, map, if_ind, is_nil,
}
use reframe_web.Workspace.Planning.{mem}
use reframe_web.Workspace.Outbox.{Pending, manifest_of}
use reframe_web.Workspace.Effects.{
  World, memory_with_continue, empty_command, prefetch_failed, publication_pending,
  create_workspace, get_workspace_status, close_workspace, destroy_ephemeral_workspace, prefetch,
  commit_checkpoint, start_process, Result, Prog, pure, query, request, note, asked,
}
use reframe_web.Workspace.Effects.Frames.{
  Frame, Respects, pure-Respects, raise-Respects, handle-Respects, then-Respects, query-Respects,
  request-Respects, ask-Respects, mounted-Respects, daemon_call-Respects,
}
use reframe_web.Workspace.Publication.{publish_manifest, reconcile}
use reframe_web.Workspace.Publication.Respects.{
  Publishing, publish_manifest-Respects, reconcile-Respects,
}
use reframe_web.Workspace.Plans.{
  Exit, exited, cancelled, Environment, resolve_plan, create_project_memory, list_memories,
}
use reframe_web.Workspace.Coordinator.{
  select_session, Continued, continue_target, prefetch_session, prefetch_created, or_inherited,
  is_some, create_session, get_status, append_pending, PublishedCheckpoint, publish_committed,
  checkpoint_session, close_session, destroy_session, wait_for, start_command, run_process,
  run_in_workspace, run_command, Operation, create, status_of, close, destroy, checkpoint, run,
  reconcile_pending, create_project, list_all, connect, disconnect, reach_daemon, Answer, as_answer,
  perform, perform_all,
}
use reframe_web.Workspace.Plans.Respects.{
  resolve_plan-Respects, create_project_memory-Respects, list_memories-Respects,
}
use reframe_web.Workspace.Coordinator.Selects.{select_session-Respects, continue_target-Respects}

-- A publisher's frame whose relation allows a new row that is pending.
pub record Coordinating (R : World → World → Type 0) : Type 0 where
  pub publishing : Publishing R
  pub appends :
      (w : World) (p : Pending)
      → mem p.manifest_id (map manifest_of w.rows) ≡ false
      → R w (record w { rows = w.rows ++ record { publication = p; memory_id = none } ∷ [] })

module _ {R : World → World → Type 0} (c : Coordinating R) where
  abbrev frame : Frame R
  frame = c.publishing.frame

  prefetch_session-Respects :
      (env : Environment) (id : ℕ) (paths : List String)
      → Respects R (prefetch_session env id paths)
  unfolding prefetch_session
  prefetch_session-Respects env id paths =
      mounted-Respects frame env.publisher.outcome env.publisher.expired id
        (request env.publisher.outcome env.publisher.expired (prefetch id paths) (λ n. pure tt))
        (ask-Respects frame env.publisher.outcome env.publisher.expired (prefetch id paths)
          (λ n. tt))

  prefetch_created-Respects :
      (env : Environment) (id : ℕ) (paths : List String)
      → Respects R (prefetch_created env id paths)
  prefetch_created-Respects env id [] = pure-Respects frame id
  prefetch_created-Respects env id (path ∷ paths) =
      handle-Respects frame (prefetch_session env id (path ∷ paths)) _ _
        (prefetch_session-Respects env id (path ∷ paths))
        (λ e. raise-Respects frame ℕ (prefetch_failed id e)) (λ u. pure-Respects frame id)

  create_session-Respects :
      (env : Environment) (ids : List ℕ) (continued : Option Continued)
      → Respects R (create_session env ids continued)
  unfolding create_session
  create_session-Respects env ids continued =
      if_ind (Respects R) (not (is_nil ids) && is_some continued) _ _
        (λ e. raise-Respects frame ℕ memory_with_continue)
        (λ e.
          then-Respects frame (continue_target env continued) _
            (continue_target-Respects c.publishing env continued)
            (λ inherited.
              then-Respects frame (resolve_plan env (or_inherited ids inherited)) _
                (resolve_plan-Respects frame env (or_inherited ids inherited))
                (λ resolved.
                  then-Respects frame
                    (request env.publisher.outcome env.publisher.expired
                      (create_workspace resolved.memory_sources resolved.scratch_paths)
                      (λ n. pure (env.created n)))
                    _
                    (ask-Respects frame env.publisher.outcome env.publisher.expired
                      (create_workspace resolved.memory_sources resolved.scratch_paths) env.created)
                    (λ id. prefetch_created-Respects env id resolved.prefetch_paths))))

  get_status-Respects :
      (env : Environment) (requested : Option ℕ) → Respects R (get_status env requested)
  unfolding get_status
  get_status-Respects env requested =
      then-Respects frame (select_session env requested false) _
        (select_session-Respects c.publishing env requested false)
        (λ id.
          ask-Respects frame env.publisher.outcome env.publisher.expired (get_workspace_status id)
            env.status)

  close_session-Respects :
      (env : Environment) (requested : Option ℕ) → Respects R (close_session env requested)
  unfolding close_session
  close_session-Respects env requested =
      then-Respects frame (select_session env requested true) _
        (select_session-Respects c.publishing env requested true)
        (λ id.
          ask-Respects frame env.publisher.outcome env.publisher.expired (close_workspace id)
            (λ n. tt))

  destroy_session-Respects :
      (env : Environment) (requested : Option ℕ) → Respects R (destroy_session env requested)
  unfolding destroy_session
  destroy_session-Respects env requested =
      then-Respects frame (select_session env requested false) _
        (select_session-Respects c.publishing env requested false)
        (λ id.
          ask-Respects frame env.publisher.outcome env.publisher.expired
            (destroy_ephemeral_workspace id) (λ n. tt))

  append_pending-Respects : (p : Pending) → Respects R (append_pending p)
  append_pending-Respects p w =
      if_ind (λ (r : World × Result ℕ). R w r.0) (mem p.manifest_id (map manifest_of w.rows)) _ _
        (λ e. frame.reflexive w) (λ e. c.appends w p e)

  publish_committed-Respects :
      (env : Environment) (id manifest : ℕ) → Respects R (publish_committed env id manifest)
  publish_committed-Respects env id manifest =
      handle-Respects frame (publish_manifest env.publisher manifest) _ _
        (publish_manifest-Respects c.publishing env.publisher manifest)
        (λ e. raise-Respects frame PublishedCheckpoint (publication_pending manifest e))
        (λ found w. frame.reflexive w)

  checkpoint_session-Respects :
      (env : Environment) (requested : Option ℕ) (paths : List String) (retain_all : Bool)
      → Respects R (checkpoint_session env requested paths retain_all)
  unfolding checkpoint_session
  checkpoint_session-Respects env requested paths retain_all =
      then-Respects frame (select_session env requested true) _
        (select_session-Respects c.publishing env requested true)
        (λ id.
          then-Respects frame (query env.publisher.outcome (λ number. env.selection number paths)) _
            (query-Respects frame env.publisher.outcome (λ number. env.selection number paths))
            (λ selected.
              then-Respects frame
                (request env.publisher.outcome env.publisher.expired
                  (commit_checkpoint id selected retain_all)
                  (λ number. append_pending (env.committed number)))
                _
                (request-Respects frame env.publisher.outcome env.publisher.expired
                  (commit_checkpoint id selected retain_all)
                  (λ number. append_pending (env.committed number))
                  (λ n. append_pending-Respects (env.committed n)))
                (λ manifest. publish_committed-Respects env id manifest)))

  wait_for-Respects : (env : Environment) (exit : Exit) → Respects R (wait_for env exit)
  wait_for-Respects env (exited code) = pure-Respects frame code
  wait_for-Respects env cancelled =
      then-Respects frame (query env.publisher.outcome (λ number. tt)) _
        (query-Respects frame env.publisher.outcome (λ number. tt))
        (λ u. pure-Respects frame {A = ℕ} 130)

  start_command-Respects :
      (env : Environment) (id : ℕ) (command : List String)
      → Respects R (start_command env id command)
  start_command-Respects env id command =
      then-Respects frame (note (asked (start_process id command)))
        (λ u. query env.publisher.outcome (λ number. tt))
        (λ w. frame.notes w (asked (start_process id command)))
        (λ u. query-Respects frame env.publisher.outcome (λ number. tt))

  run_process-Respects :
      (env : Environment) (id : ℕ) (command : List String) → Respects R (run_process env id command)
  run_process-Respects env id command =
      then-Respects frame (start_command env id command) _ (start_command-Respects env id command)
        (λ u.
          then-Respects frame (query env.publisher.outcome env.exit) (wait_for env)
            (query-Respects frame env.publisher.outcome env.exit) (wait_for-Respects env))

  run_in_workspace-Respects :
      (env : Environment) (id : ℕ) (command : List String)
      → Respects R (run_in_workspace env id command)
  unfolding run_in_workspace
  run_in_workspace-Respects env id [] = raise-Respects frame ℕ empty_command
  run_in_workspace-Respects env id (word ∷ words) =
      mounted-Respects frame env.publisher.outcome env.publisher.expired id
        (run_process env id (word ∷ words)) (run_process-Respects env id (word ∷ words))

  run_command-Respects :
      (env : Environment) (requested : Option ℕ) (command : List String)
      → Respects R (run_command env requested command)
  unfolding run_command
  run_command-Respects env requested command =
      then-Respects frame (select_session env requested true) _
        (select_session-Respects c.publishing env requested true)
        (λ id. run_in_workspace-Respects env id command)

  as_answer-Respects :
      {A : Type 0} (m : Prog A) (answer : A → Answer)
      → Respects R m
      → Respects R (as_answer m answer)
  as_answer-Respects m answer ms = then-Respects frame m _ ms (λ a. pure-Respects frame (answer a))

  reach_daemon-Respects : (env : Environment) → Respects R (reach_daemon env)
  unfolding reach_daemon
  reach_daemon-Respects env =
      daemon_call-Respects frame env.publisher.outcome env.publisher.expired (λ number. pure tt)
        (λ n. pure-Respects frame tt)

  perform-Respects :
      (env : Environment) (operation : Operation) → Respects R (perform env operation)
  unfolding perform
  perform-Respects env (create ids continued) =
      as_answer-Respects (create_session env ids continued) _
        (create_session-Respects env ids continued)
  perform-Respects env (status_of requested) =
      as_answer-Respects (get_status env requested) _ (get_status-Respects env requested)
  perform-Respects env (close requested) =
      as_answer-Respects (close_session env requested) _ (close_session-Respects env requested)
  perform-Respects env (destroy requested) =
      as_answer-Respects (destroy_session env requested) _ (destroy_session-Respects env requested)
  perform-Respects env (checkpoint requested paths retain_all) =
      as_answer-Respects (checkpoint_session env requested paths retain_all) _
        (checkpoint_session-Respects env requested paths retain_all)
  perform-Respects env (run requested command) =
      as_answer-Respects (run_command env requested command) _
        (run_command-Respects env requested command)
  perform-Respects env (reconcile_pending strict) =
      as_answer-Respects (reconcile env.publisher strict) _
        (reconcile-Respects c.publishing env.publisher strict)
  perform-Respects env create_project =
      as_answer-Respects (create_project_memory env) _
        (create_project_memory-Respects frame c.publishing.lists env)
  perform-Respects env connect = as_answer-Respects (reach_daemon env) _ (reach_daemon-Respects env)
  perform-Respects env disconnect =
      as_answer-Respects (reach_daemon env) _ (reach_daemon-Respects env)
  perform-Respects env list_all =
      as_answer-Respects (list_memories env) _ (list_memories-Respects frame env)

  pub perform_all-Respects :
      (env : Environment) (operations : List Operation) (w : World)
      → R w (perform_all env operations w)
  unfolding perform_all
  perform_all-Respects env [] w = frame.reflexive w
  perform_all-Respects env (operation ∷ operations) w =
      let w' = (perform env operation w).0 in
      frame.transitive w w' (perform_all env operations w') (perform-Respects env operation w)
        (perform_all-Respects env operations w')
