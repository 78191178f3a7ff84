-- ===== src/Voice/TurnLoop/Commits.antt =====
-- The capture thread and the event loop together: `run` of speculative_capture_session.py feeds the
-- loop of commands/voice_loop.py.
use reframe_web.Prelude.{ℕ, ◌≡◌, ap, sym, ◌∙◌, Bool, List, All, length}
use reframe_web.Voice.Vad.{VoiceActivityDecision}
use reframe_web.Voice.Mode.{Controller}
use reframe_web.Voice.Capture.{PipelineConfig, Spotter}
use reframe_web.Voice.Session.{Session, Round, session_of, run}
use reframe_web.Voice.Session.Runs.{IsFresh, EndsRight, run_protocol}
use reframe_web.Voice.TurnLoop.{Loop, create, handle_all}
use reframe_web.Voice.TurnLoop.Follows.{
  IsSettled, committed_captures, confirmed_captures, follows_lem, ended-length,
}

-- For any run of a fresh capture session, whose events the loop has handled: the captures of the
-- turns it committed are those of the confirmed events, in their order, and as many as the session
-- counted; and every turn that it let go of was either committed or cancelled, never both, with its
-- task cancelled exactly when its control was.
pub loop_commits_confirmed :
    {Sample Sp F D : Type 0} (spotter : Spotter Sample Sp) (config : PipelineConfig F)
    (new_detector : D) (detect : D → List Sample → D × VoiceActivityDecision F) (max_turns : ℕ)
    (s : Session Sample Sp F D) (now : ℕ) (rs : List (Round Sample)) (stopped : Bool)
    (prepare_seconds : ℕ) (c : Controller)
    → IsFresh s
    → let end : Session Sample Sp F D =
        session_of (run spotter config new_detector detect max_turns s now rs stopped) in
      let loop : Loop Sample = handle_all prepare_seconds (create c) end.events in
      (committed_captures loop.released ≡ confirmed_captures end.events)
      × (length (committed_captures loop.released) ≡ end.completed_turns)
      × All IsSettled loop.released
loop_commits_confirmed spotter config new_detector detect max_turns s now rs stopped n c fresh =
    let ends : EndsRight max_turns
        (run spotter config new_detector detect max_turns s now rs stopped) =
      run_protocol spotter config new_detector detect max_turns s now rs stopped fresh in
    let follows = follows_lem n c ends.history in
    (
      follows.committed,
      ap length follows.committed ∙ sym (ended-length ends.history) ∙ ends.turns,
      follows.settled,
    )
