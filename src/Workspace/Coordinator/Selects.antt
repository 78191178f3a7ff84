-- ===== src/Workspace/Coordinator/Selects.antt =====
-- A relation that the publisher's calls respect is respected by the choice of a session, and by the
-- publication of the head of one that is continued.
use reframe_web.Prelude.{ℕ, Bool, false, not, ◌&&◌, Option, none, some, List, [], ◌∷◌, ◌==◌, if_ind}
use reframe_web.Workspace.Effects.{
  World, no_session, latest_closed, unknown_session, no_checkpoint, list_workspaces,
}
use reframe_web.Workspace.Effects.Frames.{
  Frame, Respects, pure-Respects, raise-Respects, then-Respects, ask-Respects,
}
use reframe_web.Workspace.Publication.{publish_external}
use reframe_web.Workspace.Publication.Respects.{Publishing, publish_graph-Respects}
use reframe_web.Workspace.Plans.{WorkspaceSummary, Environment}
use reframe_web.Workspace.Coordinator.{
  list_summaries, latest_of, latest_summary, summary_of, summary_for, select_session, Continued,
  latest, session, continued_summary, head_publication, continue_head, continue_target,
}

module _ {R : World → World → Type 0} (p : Publishing R) where
  abbrev frame : Frame R
  frame = p.frame

  list_summaries-Respects : (env : Environment) → Respects R (list_summaries env)
  unfolding list_summaries
  list_summaries-Respects env =
      ask-Respects frame env.publisher.outcome env.publisher.expired list_workspaces env.summaries

  latest_of-Respects :
      (active : Bool) (summaries : List WorkspaceSummary) → Respects R (latest_of active summaries)
  latest_of-Respects active [] = raise-Respects frame WorkspaceSummary no_session
  latest_of-Respects active (s ∷ rest) =
      if_ind (Respects R) (active && not s.is_active) _ _
        (λ e. raise-Respects frame WorkspaceSummary (latest_closed s.session_id))
        (λ e. pure-Respects frame s)

  latest_summary-Respects :
      (env : Environment) (active : Bool) → Respects R (latest_summary env active)
  unfolding latest_summary
  latest_summary-Respects env active =
      then-Respects frame (list_summaries env) (latest_of active) (list_summaries-Respects env)
        (latest_of-Respects active)

  summary_of-Respects :
      (id : ℕ) (summaries : List WorkspaceSummary) → Respects R (summary_of id summaries)
  summary_of-Respects id [] = raise-Respects frame WorkspaceSummary (unknown_session id)
  summary_of-Respects id (s ∷ rest) =
      if_ind (Respects R) (s.session_id == id) _ _ (λ e. pure-Respects frame s)
        (λ e. summary_of-Respects id rest)

  summary_for-Respects : (env : Environment) (id : ℕ) → Respects R (summary_for env id)
  unfolding summary_for
  summary_for-Respects env id =
      then-Respects frame (list_summaries env) (summary_of id) (list_summaries-Respects env)
        (summary_of-Respects id)

  pub select_session-Respects :
      (env : Environment) (requested : Option ℕ) (active : Bool)
      → Respects R (select_session env requested active)
  unfolding select_session
  select_session-Respects env (some id) active = pure-Respects frame id
  select_session-Respects env none active =
      then-Respects frame (latest_summary env active) _ (latest_summary-Respects env active)
        (λ s. pure-Respects frame s.session_id)

  continue_head-Respects :
      (env : Environment) (s : WorkspaceSummary) (head : Option ℕ)
      → Respects R (continue_head env s head)
  continue_head-Respects env s none = raise-Respects frame (List ℕ) (no_checkpoint s.session_id)
  continue_head-Respects env s (some head) =
      then-Respects frame (publish_external env.publisher (head_publication env s head)) _
        (publish_graph-Respects p env.publisher (head_publication env s head))
        (λ found. pure-Respects frame (found.id ∷ []))

  continued_summary-Respects :
      (env : Environment) (requested : Continued) → Respects R (continued_summary env requested)
  continued_summary-Respects env latest = latest_summary-Respects env false
  continued_summary-Respects env (session id) = summary_for-Respects env id

  pub continue_target-Respects :
      (env : Environment) (requested : Option Continued)
      → Respects R (continue_target env requested)
  unfolding continue_target
  continue_target-Respects env none = pure-Respects frame {A = List ℕ} []
  continue_target-Respects env (some requested) =
      then-Respects frame (continued_summary env requested) _
        (continued_summary-Respects env requested)
        (λ s. continue_head-Respects env s s.head_manifest)
