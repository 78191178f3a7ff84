-- ===== src/Voice/TurnProcessor/Guarded.antt =====
-- A turn acts on the world only once it has been committed.
use reframe_web.Prelude.{
  ℕ, ◌≡◌, refl, sym, subst, Bool, true, false, ◌&&◌, Option, none, some, List, [], ◌∷◌, ◌++◌,
  if◌then◌else◌, All, if_ind,
}
use reframe_web.Voice.Segmenter.{DetectedUtterance}
use reframe_web.Voice.Mode.{ConversationMode}
use reframe_web.Voice.TurnControl.{
  TurnControl, Pause, Outcome, returned, cancelled_error, waiting, after_pause,
  wait_for_commit_or_cancel, wait_until_committed, wait_until_committed_safe,
}
use reframe_web.Voice.Capture.{CaptureResult, KeyphraseDetection}
use reframe_web.Voice.TurnProcessor.{
  Effect, turn_on_conversation, record_human_reply, agent_turn, resolve_human_reply, World, Ended,
  done, cancelled, pending, failed, TurnResult, mode_switch_result, ignored_result, handled, M,
  go_on, ◌>>=◌, ended_of, pure, perform, await_control, until_committed, speculative_start,
  in_thread, transcribe_in_thread, turn_on_conversation_mode, is_trigger_only, routed,
  is_continuous_unprompted, is_confirmation, Collaborators, match_capture, run_agent,
  remember_reply, resolve_reply, switch_on, process_captured, process_confirmation,
  process_transcript, process_speech, process_utterance, process,
}

-- A turn with a control may act while that is committed and not cancelled.
abbrev pub MayAct : Option TurnControl → Type 0
MayAct none = Unit {0}
MayAct (some c) = (c.committed ≡ true) × (c.cancelled ≡ false)

-- Every effect but the last bookkeeping of a reply happened while the turn might act.
abbrev pub IsAllowed : {Text : Type 0} → Option TurnControl × Effect Text → Type 0
IsAllowed (c, turn_on_conversation) = MayAct c
IsAllowed (c, record_human_reply text) = MayAct c
IsAllowed (c, agent_turn text) = MayAct c
IsAllowed (c, resolve_human_reply text) = Unit {0}

abbrev pub IsGuarded : {Text : Type 0} → World Text → Type 0
IsGuarded w = All IsAllowed w.effects

module _ {Text : Type 0} where
  -- What holds where an action ends, whatever its outcome, and after it where it is done.
  Post : {A : Type 0} → (World Text → Type 0) → World Text × Ended A → Type 0
  Post Q (w, done a) = IsGuarded w × Q w
  Post Q (w, cancelled) = IsGuarded w
  Post Q (w, pending) = IsGuarded w
  Post Q (w, failed) = IsGuarded w

  Triple : {A : Type 0} → (World Text → Type 0) → M Text A → (World Text → Type 0) → Type 0
  Triple P m Q = (w : World Text) → IsGuarded w → P w → Post Q (m w)

  Any : World Text → Type 0
  Any w = Unit {0}

  Acting : World Text → Type 0
  Acting w = MayAct w.control

  go_on_lem :
      {A B : Type 0} (Q R : World Text → Type 0) (x : World Text × Ended A) (f : A → M Text B)
      → Post Q x
      → ((a : A) → Triple Q (f a) R)
      → Post R (go_on x f)
  unfolding Post Triple
  go_on_lem Q R (w, done a) f (g, q) k = k a w g q
  go_on_lem Q R (w, cancelled) f g k = g
  go_on_lem Q R (w, pending) f g k = g
  go_on_lem Q R (w, failed) f g k = g

  bind_lem :
      {A B : Type 0} (P Q R : World Text → Type 0) (m : M Text A) (f : A → M Text B)
      → Triple P m Q
      → ((a : A) → Triple Q (f a) R)
      → Triple P (m >>= f) R
  unfolding Triple
  bind_lem P Q R m f h k w g p = go_on_lem Q R (m w) f (h w g p) k

  if_lem :
      {A : Type 0} (P Q : World Text → Type 0) (b : Bool) (m n : M Text A)
      → Triple P m Q
      → Triple P n Q
      → Triple P (if b then m else n) Q
  if_lem P Q b m n h k = if_ind (λ x. Triple P x Q) b m n (λ _. h) (λ _. k)

  keep_lem : {A : Type 0} (a : A) (P : World Text → Type 0) → Triple P (pure a) P
  unfolding Triple Post
  keep_lem a P w g p = (g, p)

  pure_lem : {A : Type 0} (a : A) (P : World Text → Type 0) → Triple P (pure a) Any
  unfolding Triple Post Any
  pure_lem a P w g p = (g, tt)

  All-snoc :
      (es : List (Option TurnControl × Effect Text)) (e : Option TurnControl × Effect Text)
      → All IsAllowed es
      → IsAllowed e
      → All IsAllowed (es ++ e ∷ [])
  All-snoc [] e h k = (k, tt)
  All-snoc (x ∷ es) e (h, hs) k = (h, All-snoc es e hs k)

  outcome_lem :
      (r : TurnControl × List Pause × Outcome Bool) (Q : World Text → Type 0) (w : World Text)
      → IsGuarded w
      → ((b : Bool) → r.2 ≡ returned b → Q (record w { control = some r.0; schedule = r.1 }))
      → Post Q (record w { control = some r.0; schedule = r.1 }, ended_of r.2)
  unfolding Post
  outcome_lem (c, ps, returned b) Q w g k = (g, k b refl)
  outcome_lem (c, ps, cancelled_error) Q w g k = g
  outcome_lem (c, ps, waiting) Q w g k = g

  committed_lem :
      (c : Option TurnControl) (w : World Text)
      → w.control ≡ c
      → IsGuarded w
      → Post Acting (await_control wait_until_committed c w)
  unfolding await_control Post Acting
  committed_lem none w e g = (g, subst MayAct (sym e) tt)
  committed_lem (some c) w e g =
      outcome_lem (wait_until_committed c w.schedule) Acting w g
        (wait_until_committed_safe c w.schedule)

  start_lem :
      (grace : ℕ) (c : Option TurnControl) (w : World Text)
      → IsGuarded w
      → Post Any (await_control (wait_for_commit_or_cancel grace) c w)
  unfolding await_control Post Any
  start_lem grace none w g = (g, tt)
  start_lem grace (some c) w g =
      outcome_lem (wait_for_commit_or_cancel grace c w.schedule) Any w g λ b e. tt

  checked_lem :
      {A : Type 0} (a : A) (b : Bool) (w : World Text)
      → IsGuarded w
      → Post Any (w, if b then cancelled else done a)
  unfolding Post Any
  checked_lem a true w g = g
  checked_lem a false w g = (g, tt)

  in_thread_lem :
      {A : Type 0} (a : A) (c : Option TurnControl) (ps : List Pause) (w : World Text)
      → IsGuarded w
      → Post Any (in_thread a c ps w)
  unfolding in_thread Post Any
  in_thread_lem a none ps w g = (g, tt)
  in_thread_lem a (some c) [] w g = checked_lem a c.cancelled w g
  in_thread_lem a (some c) (p ∷ ps) w g =
      checked_lem a (after_pause c p).cancelled
        (record w { control = some (after_pause c p); schedule = ps }) g

  perform_lem :
      (e : Effect Text)
      → ((c : Option TurnControl) → MayAct c → IsAllowed (c, e))
      → Triple Acting (perform e) Acting
  unfolding Triple Post Acting
  perform_lem e k w g p = (All-snoc w.effects (w.control, e) g (k w.control p), p)

transcribe_lem :
    (Text : Type 0) {A : Type 0} (a : A) → Triple {Text = Text} Any (transcribe_in_thread a) Any
unfolding transcribe_in_thread Triple
transcribe_lem Text a w g p = in_thread_lem a w.control w.schedule w g

until_committed_lem : (Text : Type 0) → Triple {Text = Text} Any until_committed Acting
unfolding until_committed Triple
until_committed_lem Text w g p = committed_lem w.control w refl g

start_triple : (Text : Type 0) (grace : ℕ) → Triple {Text = Text} Any (speculative_start grace) Any
unfolding speculative_start Triple
start_triple Text grace w g p = start_lem grace w.control w g

turn_on_lem : (Text : Type 0) → Triple {Text = Text} Acting turn_on_conversation_mode Acting
unfolding turn_on_conversation_mode Triple Post Acting
turn_on_lem Text w g p = (All-snoc w.effects (w.control, turn_on_conversation) g p, p)

module _ {Sample Text R : Type 0} (k : Collaborators Sample Text R) where
  ended_lem : (w : World Text) (x : Ended R) → IsGuarded w → Post Any (w, x)
  unfolding Post Any
  ended_lem w (done r) g = (g, tt)
  ended_lem w cancelled g = g
  ended_lem w pending g = g
  ended_lem w failed g = g

  agent_lem : (text : Text) → Triple Acting (run_agent k text) Any
  unfolding run_agent Triple Acting
  agent_lem text w g p =
      ended_lem _ (k.agent text w.control w.schedule).2
        (All-snoc w.effects (w.control, agent_turn text) g p)

  remember_lem : (text : Text) → Triple Acting (remember_reply k text) Acting
  unfolding remember_reply
  remember_lem text =
      if_lem Acting Acting (k.is_empty text) (pure tt) (perform (record_human_reply text))
        (keep_lem tt Acting) (perform_lem (record_human_reply text) λ c h. h)

  free_lem : (text : Text) → Triple Any (perform (resolve_human_reply text)) Any
  unfolding Triple Post Any
  free_lem text w g p = (All-snoc w.effects (w.control, resolve_human_reply text) g tt, tt)

  resolve_lem : (text : Text) → Triple Any (resolve_reply k text) Any
  unfolding resolve_reply
  resolve_lem text =
      if_lem Any Any (k.is_empty text) (pure tt) (perform (resolve_human_reply text))
        (keep_lem tt Any) (free_lem text)

  process_transcript_lem : (text : Text) → Triple Any (process_transcript k text) Any
  unfolding process_transcript
  process_transcript_lem text =
      bind_lem Any Acting Any until_committed _ (until_committed_lem Text) λ _.
        bind_lem Acting Acting Any (remember_reply k text) _ (remember_lem text) λ _.
          bind_lem Acting Any Any (run_agent k text) _ (agent_lem text) λ r.
            bind_lem Any Any Any (resolve_reply k text) _ (resolve_lem text)
              λ _. pure_lem (handled r) Any

  switch_lem : Triple {Text = Text} {A = TurnResult R} Acting switch_on Any
  unfolding switch_on
  switch_lem =
      bind_lem Acting Acting Any turn_on_conversation_mode _ (turn_on_lem Text)
        λ mode. pure_lem (mode_switch_result mode) Acting

  process_confirmation_lem :
      (u : DetectedUtterance Sample) (d : KeyphraseDetection)
      → Triple Any (process_confirmation k u d) Any
  unfolding process_confirmation
  process_confirmation_lem u d =
      bind_lem Any Any Any (speculative_start k.grace) _ (start_triple Text k.grace) λ _.
        bind_lem Any Any Any (transcribe_in_thread (k.transcribe_with_prompt u)) _
          (transcribe_lem Text (k.transcribe_with_prompt u))
          λ text. bind_lem Any Acting Any until_committed _ (until_committed_lem Text) λ _.
            if_lem Acting Any (is_trigger_only k.is_empty (k.match_confirmed text d)) _
              (pure ignored_result) switch_lem (pure_lem ignored_result Acting)

  process_speech_lem :
      (capture : CaptureResult Sample) (u : DetectedUtterance Sample)
      → Triple Any (process_speech k capture u) Any
  unfolding process_speech
  process_speech_lem capture u =
      bind_lem Any Any Any (speculative_start k.grace) _ (start_triple Text k.grace) λ _.
        bind_lem Any Any Any (transcribe_in_thread (k.transcribe u)) _
          (transcribe_lem Text (k.transcribe u))
          λ text.
            if_lem Any Any (is_trigger_only k.is_empty (match_capture k capture text)) _
              (process_transcript k (routed text (match_capture k capture text)))
              (bind_lem Any Acting Any until_committed _ (until_committed_lem Text) λ _. switch_lem)
              (process_transcript_lem (routed text (match_capture k capture text)))

  spoken_lem :
      (capture : CaptureResult Sample) (detection : Option KeyphraseDetection)
      (u : DetectedUtterance Sample)
      → Triple Any
          (elim detection [
            | none ↦ process_speech k capture u
            | some d ↦
                if is_confirmation capture
                then process_confirmation k u d
                else process_speech k capture u
          ])
          Any
  spoken_lem capture none u = process_speech_lem capture u
  spoken_lem capture (some d) u =
      if_lem Any Any (is_confirmation capture) (process_confirmation k u d)
        (process_speech k capture u) (process_confirmation_lem u d) (process_speech_lem capture u)

  process_utterance_lem :
      (capture : CaptureResult Sample) (mode : ConversationMode) (u : DetectedUtterance Sample)
      → Triple Any (process_utterance k capture mode u) Any
  unfolding process_utterance
  process_utterance_lem capture mode u =
      if_lem Any Any (is_continuous_unprompted mode capture && k.is_noise u) _ _
        (bind_lem Any Acting Any until_committed _ (until_committed_lem Text)
          λ _. pure_lem ignored_result Acting)
        (spoken_lem capture capture.keyphrase_detection u)

  Post-IsGuarded : {A : Type 0} (x : World Text × Ended A) → Post Any x → IsGuarded x.0
  unfolding Post
  Post-IsGuarded (w, done a) (g, _) = g
  Post-IsGuarded (w, cancelled) g = g
  Post-IsGuarded (w, pending) g = g
  Post-IsGuarded (w, failed) g = g

  captured_lem :
      (capture : CaptureResult Sample) (mode : ConversationMode)
      (utterance : Option (DetectedUtterance Sample)) (w : World Text)
      → IsGuarded w
      → IsGuarded (process_captured k capture mode utterance w).0
  unfolding process_captured Triple Any
  captured_lem capture mode none w g = g
  captured_lem capture mode (some u) w g =
      Post-IsGuarded _ (process_utterance_lem capture mode u w g tt)

  -- Whatever is captured, heard and matched, and whatever others do meanwhile: a turn turns the mode
  -- on, records a reply or runs the agent only at a moment when its control, if it has one, has been
  -- committed and has not been cancelled.
  pub process_acts_committed :
      (capture : CaptureResult Sample) (mode : ConversationMode) (w : World Text)
      → w.effects ≡ []
      → All IsAllowed (process k capture mode w).0.effects
  unfolding process
  process_acts_committed capture mode w e =
      captured_lem capture mode capture.utterance w (subst (All IsAllowed) (sym e) tt)
