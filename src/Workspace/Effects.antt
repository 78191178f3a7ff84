-- ===== src/Workspace/Effects.antt =====
-- Coroutines of agent-host/src/reframe_agent_host/workspace that call the daemon, the database, BAML
-- functions and processes, as functions on the state that these calls share. Each call has a number,
-- and an argument says whether it works.
pub mod Frames
use Prim.Native.String.{String}
use reframe_web.Prelude.{ℕ, suc, Bool, Option, none, some, List, [], ◌∷◌, ◌++◌, if◌then◌else◌}
use reframe_web.Workspace.Planning.{Source, PlanError}
use reframe_web.Workspace.Outbox.{prune, Row, CheckpointNode, DirectoryNode}

-- A call works, or it raises after its effect, or before it.
pub data Outcome : Type 0 where
  works lost fails : Outcome

-- What is held between a call and its counterpart: a session's mount, or a database.
pub data Resource : Type 0 where
  mount : ℕ → Resource
  database : Resource

-- The daemon's requests that the coordinator makes with arguments, and the processes it starts.
pub data Request : Type 0 where
  list_workspaces : Request
  create_workspace : List (Source ℕ ℕ) → List String → Request
  get_workspace_status close_workspace destroy_ephemeral_workspace : ℕ → Request
  prefetch : ℕ → List String → Request
  commit_checkpoint : ℕ → List String → Bool → Request
  start_process : ℕ → List String → Request

pub data Event : Type 0 where
  acquired released : Resource → Event
  asked : Request → Event

pub record World : Type 0 where
  pub calls : ℕ
  pub rows : List Row
  pub graph : List CheckpointNode
  pub directories : List DirectoryNode
  pub journal : List Event

-- The errors of the coordinator, with what they wrap. `unreachable` is raised by the call itself,
-- `refused` by the daemon's answer.
pub data Problem : Type 0 where
  unreachable refused memory_with_continue no_session empty_command recursion_limit : Problem
  latest_closed unknown_session no_checkpoint missing_manifest disappeared collision : ℕ → Problem
  unplanned : PlanError → Problem
  outbox_unread : Problem → Problem
  prefetch_failed publish_failed publication_pending : ℕ → Problem → Problem

pub data Result (A : Type 0) : Type 0 where
  returned : A → Result A
  raised : Problem → Result A

abbrev pub Prog : Type 0 → Type 0
Prog A = World → World × Result A

abbrev pub pure : {A : Type 0} → A → Prog A
pure a w = (w, returned a)

abbrev pub raise : {A : Type 0} → Problem → Prog A
raise e w = (w, raised e)

abbrev pub resume :
    {A B : Type 0} → World × Result A → (Problem → Prog B) → (A → Prog B) → World × Result B
resume (w, returned a) handler next = next a w
resume (w, raised e) handler next = handler e w

-- `try: a = m` / `except Exception as e: handler(e)` / `else: next(a)`
abbrev pub handle : {A B : Type 0} → Prog A → (Problem → Prog B) → (A → Prog B) → Prog B
handle m handler next w = resume (m w) handler next

infixl 5 ◌>>=◌ ◌>>◌
abbrev pub ◌>>=◌ : {A B : Type 0} → Prog A → (A → Prog B) → Prog B
m >>= next = handle m raise next

abbrev pub ◌>>◌ : {A B : Type 0} → Prog A → Prog B → Prog B
m >> next = handle m raise (λ a. next)

-- `finally`: an error of the last part replaces the result.
abbrev pub finally : {A B : Type 0} → Prog A → Prog B → Prog A
finally body last =
    handle body (λ e. handle last raise (λ b. raise e)) (λ a. handle last raise (λ b. pure a))

abbrev pub note : Event → Prog (Unit {0})
note event w = (record w { journal = w.journal ++ event ∷ [] }, returned tt)

abbrev pub attempt : {A : Type 0} → Outcome → Prog A → Prog A
attempt works effect w = effect w
attempt lost effect w = ((effect w).0, raised unreachable)
attempt fails effect w = (w, raised unreachable)

-- A call, whose effect and answer may depend on its number.
abbrev pub call : {A : Type 0} → (ℕ → Outcome) → (ℕ → Prog A) → Prog A
call outcome effect w =
    attempt (outcome w.calls) (effect w.calls) (record w { calls = suc w.calls })

-- A call that changes nothing that the model keeps.
abbrev pub query : {A : Type 0} → (ℕ → Outcome) → (ℕ → A) → Prog A
query outcome answer = call outcome (λ number. pure (answer number))

-- The daemon that a call reaches may have been started for it: it has then pruned its table. An
-- argument says, by the number of the call, which publications were old enough.
abbrev pub wake : (ℕ → ℕ → Bool) → Prog (Unit {0})
wake expired w = (record w { rows = prune (expired w.calls) w.rows }, returned tt)

abbrev pub daemon_call : {A : Type 0} → (ℕ → Outcome) → (ℕ → ℕ → Bool) → (ℕ → Prog A) → Prog A
daemon_call outcome expired effect = do wake expired; call outcome effect

abbrev pub request : {A : Type 0} → (ℕ → Outcome) → (ℕ → ℕ → Bool) → Request → (ℕ → Prog A) → Prog A
request outcome expired q effect = do note (asked q); daemon_call outcome expired effect

-- A body between the call that acquires a resource and the call that releases it. Each is noted when
-- its call has returned.
abbrev pub within : {A : Type 0} → Prog (Unit {0}) → Prog (Unit {0}) → Resource → Prog A → Prog A
within acquire release resource body = do
  acquire
  note (acquired resource)
  finally body (do release; note (released resource))

abbrev pub in_database : {A : Type 0} → (ℕ → Outcome) → Prog A → Prog A
in_database outcome body =
    within (query outcome (λ number. tt)) (query outcome (λ number. tt)) database body

abbrev pub mounted : {A : Type 0} → (ℕ → Outcome) → (ℕ → ℕ → Bool) → ℕ → Prog A → Prog A
mounted outcome expired id body =
    within (daemon_call outcome expired (λ number. pure tt))
      (daemon_call outcome expired (λ number. pure tt)) (mount id) body
