-- ===== src/Tests/Coordinator.antt =====
-- Runs of the workspace coordinator.
use reframe_web.Prelude.{
  ℕ, ◌≡◌, refl, true, false, none, some, map, List, [], ◌∷◌, ◌==◌, if◌then◌else◌,
}
use reframe_web.Workspace.Outbox.{Pending, Row, CheckpointMemory, find_row, pending}
use reframe_web.Workspace.Effects.{
  works, lost, mount, start_process, acquired, released, asked, World, returned,
}
use reframe_web.Workspace.Plans.{cancelled, Environment, resolve_plan}
use reframe_web.Workspace.Publication.{
  Publisher, publish_manifest, reconcile, publish_each, publish_outbox, publish_graph,
  prepare_and_publish, publish_checkpoint, pending_outbox,
}
use reframe_web.Workspace.Publication.Drains.{working, memory_for, reconcile-drains}
use reframe_web.Workspace.Coordinator.{
  Operation, checkpoint_session, create_session, continue_target, prefetch_session, perform,
  perform_all, run_command, run_in_workspace, select_session, run, checkpoint, create,
  reconcile_pending, exit_code, reconciled,
}
use reframe_web.Workspace.Coordinator.Safe.{IsConsistent, perform_all-IsConsistent}
use reframe_web.Workspace.Outbox.Prunes.{Survives}

abbrev publication : ℕ → Pending
publication manifest = record {
  manifest_id = manifest;
  session_id = 1;
  session_name = "Agent task session";
  base_memory_ids = 4 ∷ [];
  retained_count = 2;
}

abbrev pending_of : ℕ → Row
pending_of manifest = record { publication = publication manifest; memory_id = none }

-- The answer of the eighth call is lost; a daemon that is started prunes what is published of the
-- eighth manifest.
abbrev publisher : Publisher
publisher = record {
  outcome = λ n. if n == 7 then lost else works;
  expired = λ n manifest. manifest == 8;
  store = 3;
  checkpoint_id = λ store manifest. manifest;
  decimal = λ n. "some";
}

abbrev env : Environment
env = record {
  publisher = publisher;
  summaries = λ n. [];
  status = λ n. record { session_id = 1; is_active = true; changes = [] };
  created = λ n. 2;
  committed = λ n. publication 9;
  exit = λ n. cancelled;
  plan = λ n ids. record { memory_ids = []; prefetch_paths = "src" ∷ []; rules = [] };
  selection = λ n paths. paths;
  memory = λ n id. none;
  is_dir = λ n path. true;
  fuel = 5;
  directory_id = λ path. path;
  project_name = "reframe";
  project_path = 12;
  listed = λ n. [];
}

abbrev start : World
start = record {
  calls = 0;
  rows = pending_of 7 ∷ pending_of 8 ∷ [];
  graph = [];
  directories = [];
  journal = [];
}

start-IsConsistent : IsConsistent start
start-IsConsistent = record { published = (tt, (tt, tt)); distinct = (refl, (refl, tt)) }

-- A process whose wait is cancelled, between the mount and the unmount
run_lem :
    (perform env (run (some 1) ("ls" ∷ [])) start).0.journal
    ≡ acquired (mount 1) ∷ asked (start_process 1 ("ls" ∷ [])) ∷ released (mount 1) ∷ []
unfolding perform run_command run_in_workspace select_session
run_lem = refl

run_cancelled : (perform env (run (some 1) ("ls" ∷ [])) start).1 ≡ returned (exit_code 130)
unfolding perform run_command run_in_workspace select_session
run_cancelled = refl

-- The answer to the first completion is lost, so one of the two is counted, and none is pending.
reconcile_lem : (perform env (reconcile_pending false) start).1 ≡ returned (reconciled 1)
unfolding perform reconcile publish_each publish_outbox publish_graph prepare_and_publish
    publish_checkpoint pending_outbox
reconcile_lem = refl

reconcile_pending_lem : pending (perform env (reconcile_pending false) start).0.rows ≡ []
unfolding perform reconcile publish_each publish_outbox publish_graph prepare_and_publish
    publish_checkpoint pending_outbox
reconcile_pending_lem = refl

abbrev operations : List Operation
operations = checkpoint (some 1) ("a" ∷ []) false ∷ reconcile_pending false ∷ create [] none ∷ []

-- By their end the eighth manifest has been published, and pruned from the table.
pruned_lem : find_row 8 (perform_all env operations start).rows ≡ none
unfolding perform_all perform checkpoint_session create_session select_session continue_target
    publish_manifest reconcile publish_each publish_outbox publish_graph prepare_and_publish
    publish_checkpoint pending_outbox resolve_plan prefetch_session
pruned_lem = refl

published_lem : map (λ n. n.id) (perform_all env operations start).graph ≡ 9 ∷ 7 ∷ 8 ∷ []
unfolding perform_all perform checkpoint_session create_session select_session continue_target
    publish_manifest reconcile publish_each publish_outbox publish_graph prepare_and_publish
    publish_checkpoint pending_outbox resolve_plan prefetch_session
published_lem = refl

perform_all-IsConsistent_example :
    IsConsistent (perform_all env operations start)
    × Survives
        (perform_all env operations start).graph
        (perform_all env operations start).rows
        8
        (pending_of 8)
perform_all-IsConsistent_example =
    perform_all-IsConsistent env operations start 8 (pending_of 8) start-IsConsistent refl

abbrev identity : ℕ → CheckpointMemory
identity id = memory_for publisher (publication id)

reconcile-drains_example :
    (w' : World) × (reconcile (working publisher) true start ≡ (w', returned 2))
    × (pending w'.rows ≡ [])
reconcile-drains_example =
    reconcile-drains publisher identity true start (refl, (refl, tt)) (refl, (refl, tt)) tt
