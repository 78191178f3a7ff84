-- ===== src/Tests/Turns.antt =====
-- Runs of the event loop and of a turn.

use reframe_web.Prelude.{ℕ, ◌≡◌, refl, true, false, none, some, List, [], ◌∷◌, length, All, is_nil}
use reframe_web.Voice.Mode.{wake_command, continuous_conversation, create_controller}
use reframe_web.Voice.TurnControl.{create_control}
use reframe_web.Voice.Session.{session_of, run}
use reframe_web.Voice.TurnLoop.{create, handle_all, Loop}
use reframe_web.Voice.TurnLoop.Follows.{IsSettled, committed_captures, confirmed_captures}
use reframe_web.Voice.TurnLoop.Commits.{loop_commits_confirmed}
use reframe_web.Voice.TurnProcessor.{Collaborators, World, done, process, cancelled}
use reframe_web.Voice.TurnProcessor.Guarded.{IsAllowed, process_acts_committed}
use reframe_web.Voice.TurnProcessor.Ends.{cancelled_world, cancelled_turn_stops}
use reframe_web.Tests.Fixtures.{
  pipeline, silent_detector, deaf_spotter, TestSession, fresh_session, rounds, detect, capture,
  said,
}
use reframe_web.Tests.Voice.{is_fresh}

abbrev end : TestSession
end = session_of (
    run deaf_spotter pipeline silent_detector detect 1 (fresh_session continuous_conversation) 0
      rounds false)

abbrev loop : Loop ℕ
loop = handle_all 5 (create (create_controller continuous_conversation)) end.events

loop_commits_confirmed_example :
    (committed_captures loop.released ≡ confirmed_captures end.events)
    × (length (committed_captures loop.released) ≡ end.completed_turns)
    × All IsSettled loop.released
loop_commits_confirmed_example =
    loop_commits_confirmed deaf_spotter pipeline silent_detector detect 1
      (fresh_session continuous_conversation) 0 rounds false 5
      (create_controller continuous_conversation) (is_fresh continuous_conversation)

-- Texts are lists of words; the agent answers with how many it was told.
abbrev collaborators : Collaborators ℕ (List ℕ) ℕ
collaborators = record {
  is_empty = is_nil;
  grace = 2;
  is_noise = λ u. false;
  transcribe = λ u. u.samples;
  transcribe_with_prompt = λ u. u.samples;
  match_trigger = λ text. none;
  match_confirmed = λ text d. none;
  agent = λ text c ps. (c, ps, done (length text));
}

abbrev world : World (List ℕ)
world = record {
  control = some create_control;
  schedule =
      record { cancels = false; commits = false; elapsed = 3 }
      ∷ record { cancels = false; commits = false; elapsed = 1 }
      ∷ record { cancels = false; commits = true; elapsed = 1 }
      ∷ [];
  mode_controller = none;
  effects = [];
}

process_acts_committed_example :
    All IsAllowed (process collaborators capture wake_command world).0.effects
process_acts_committed_example =
    process_acts_committed collaborators capture wake_command world refl

cancelled_turn_stops_example :
    process collaborators capture wake_command (cancelled_world true [] none [])
    ≡ (cancelled_world true [] none [], cancelled)
cancelled_turn_stops_example =
    cancelled_turn_stops collaborators true [] none [] capture wake_command said refl
