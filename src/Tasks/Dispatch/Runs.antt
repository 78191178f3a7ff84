-- ===== src/Tasks/Dispatch/Runs.antt =====
-- What a call does before its action is recorded.
use reframe_web.Prelude.{
  false, true, Bool, ℕ, length, ◌≡◌, ◌≢◌, refl, sym, ap, subst, ◌∙◌, ◌⊎◌, inl, inr, Option, none,
  some, List, [], ◌∷◌, ◌++◌, append-nil, append_assoc,
}
use reframe_web.Tasks.Payloads.{Text, literal, Payload, or_text}
use reframe_web.Tasks.Dispatch.{
  Name, text_of, agent_thought, agent_reply, conversation_mode_off, session_memory, user_preference,
  unsupported_name, Status, ok, unsupported, malformed, DispatchRecord, Effect,
  created_task_history, added_reply, added_thought, created_session_memory, created_preference,
  recorded_action, appended_node, turned_conversation_off, spoke, Setting, Dispatcher, M, go_on,
  ◌>>=◌, ◌>>◌, pure, perform, called, call_back, written, write, add_reply, agent_replies,
  agent_thinks, problem, tell, turn_off, remember, remember_in_session, dispatch_call,
}

-- The name that a record shows
abbrev pub shown : Name → Text
shown agent_thought = text_of agent_thought
shown agent_reply = text_of agent_reply
shown conversation_mode_off = text_of conversation_mode_off
shown session_memory = text_of session_memory
shown user_preference = text_of user_preference
shown (unsupported_name name) = or_text name (literal "<empty>")

module _ {RecordId : Type 0} where
  -- The effects that stand in the task history
  unfoldable pub history_of : List (Effect RecordId) → List (Effect RecordId)
  history_of [] = []
  history_of (recorded_action name payload output id ∷ es) =
      recorded_action name payload output id ∷ history_of es
  history_of (appended_node history session conversation actions id ∷ es) =
      appended_node history session conversation actions id ∷ history_of es
  history_of (created_task_history id ∷ es) = history_of es
  history_of (added_reply conversation text id ∷ es) = history_of es
  history_of (added_thought conversation text id ∷ es) = history_of es
  history_of (created_session_memory session title description id ∷ es) = history_of es
  history_of (created_preference title description id ∷ es) = history_of es
  history_of (turned_conversation_off ∷ es) = history_of es
  history_of (spoke text ∷ es) = history_of es

  pub history_of-append :
      (es fs : List (Effect RecordId)) → history_of (es ++ fs) ≡ history_of es ++ history_of fs
  unfolding history_of
  history_of-append [] fs = refl
  history_of-append (recorded_action name payload output id ∷ es) fs =
      ap (◌∷◌ (recorded_action name payload output id)) (history_of-append es fs)
  history_of-append (appended_node history session conversation actions id ∷ es) fs =
      ap (◌∷◌ (appended_node history session conversation actions id)) (history_of-append es fs)
  history_of-append (created_task_history id ∷ es) fs = history_of-append es fs
  history_of-append (added_reply conversation text id ∷ es) fs = history_of-append es fs
  history_of-append (added_thought conversation text id ∷ es) fs = history_of-append es fs
  history_of-append (created_session_memory session title description id ∷ es) fs =
      history_of-append es fs
  history_of-append (created_preference title description id ∷ es) fs = history_of-append es fs
  history_of-append (turned_conversation_off ∷ es) fs = history_of-append es fs
  history_of-append (spoke text ∷ es) fs = history_of-append es fs

  -- A text that the agent began to speak
  abbrev pub Says : Text → List (Effect RecordId) → Type 0
  Says text [] = ⊥
  Says text (e ∷ es) = (e ≡ spoke text) ⊎ Says text es

  pub Says-left :
      (text : Text) (es fs : List (Effect RecordId)) → Says text es → Says text (es ++ fs)
  Says-left text [] fs h = absurd h
  Says-left text (e ∷ es) fs (inl h) = inl h
  Says-left text (e ∷ es) fs (inr h) = inr (Says-left text es fs h)

  pub Says-right :
      (text : Text) (es fs : List (Effect RecordId)) → Says text fs → Says text (es ++ fs)
  Says-right text [] fs h = h
  Says-right text (e ∷ es) fs h = inr (Says-right text es fs h)

  -- The journal only grows, here without an entry of the task history.
  pub record Extends (d d' : Dispatcher RecordId) : Type 0 where
    pub added : List (Effect RecordId)
    pub journal : d'.journal ≡ d.journal ++ added
    pub quiet : history_of added ≡ []
    pub history : d'.task_history_id ≡ d.task_history_id

  abbrev pub Ends :
      {A : Type 0}
      → (Dispatcher RecordId → A → Type 0)
      → Dispatcher RecordId
      → Dispatcher RecordId × Option A
      → Type 0
  Ends {A} R d x = Extends d x.0 × ((a : A) → x.1 ≡ some a → R x.0 a)

  abbrev pub Triple : {A : Type 0} → M RecordId A → (Dispatcher RecordId → A → Type 0) → Type 0
  Triple m R = (d : Dispatcher RecordId) → Ends R d (m d)

  Extends-trans : (d d' d'' : Dispatcher RecordId) → Extends d d' → Extends d' d'' → Extends d d''
  Extends-trans d d' d'' x y = record {
    added = x.added ++ y.added;
    journal = y.journal ∙ ap (λ j. j ++ y.added) x.journal ∙ append_assoc d.journal x.added y.added;
    quiet = history_of-append x.added y.added ∙ ap (λ h. h ++ history_of y.added) x.quiet ∙ y.quiet;
    history = y.history ∙ x.history;
  }

  pure_lem :
      {A : Type 0} (R : Dispatcher RecordId → A → Type 0) (d : Dispatcher RecordId) (a : A)
      → R d a
      → Ends R d (pure a d)
  unfolding history_of
  pure_lem R d a r = (
    record { added = []; journal = sym (append-nil d.journal); quiet = refl; history = refl },
    λ b e. subst (R d) (cc e) r,
  )

  go_on_lem :
      {A B : Type 0} (P : Dispatcher RecordId → A → Type 0) (R : Dispatcher RecordId → B → Type 0)
      (d : Dispatcher RecordId) (x : Dispatcher RecordId × Option A) (f : A → M RecordId B)
      → Ends P d x
      → ((a : A) (d' : Dispatcher RecordId) → P d' a → Ends R d' (f a d'))
      → Ends R d (go_on x f)
  go_on_lem P R d (d', none) f h k = (h.0, λ b e. absurd (cc e))
  go_on_lem P R d (d', some a) f h k =
      let y = k a d' (h.1 a refl) in (Extends-trans d d' (f a d').0 h.0 y.0, y.1)

  pub bind_lem :
      {A B : Type 0} (P : Dispatcher RecordId → A → Type 0) (R : Dispatcher RecordId → B → Type 0)
      (m : M RecordId A) (f : A → M RecordId B)
      → Triple m P
      → ((a : A) (d' : Dispatcher RecordId) → P d' a → Ends R d' (f a d'))
      → Triple (m >>= f) R
  bind_lem P R m f h k d = go_on_lem P R d (m d) f (h d) k

  abbrev pub Any : {A : Type 0} → Dispatcher RecordId → A → Type 0
  Any d a = Unit {0}

  abbrev Spoken : {A : Type 0} → Text → Dispatcher RecordId → A → Type 0
  Spoken text d a = Says text d.journal

  called_lem :
      (raises : Bool) (d : Dispatcher RecordId)
      → Ends Any d
          (called raises (record d { journal = d.journal ++ turned_conversation_off ∷ [] }))
  unfolding history_of
  called_lem true d = (
    record { added = turned_conversation_off ∷ []; journal = refl; quiet = refl; history = refl },
    λ a h. tt,
  )
  called_lem false d = (
    record { added = turned_conversation_off ∷ []; journal = refl; quiet = refl; history = refl },
    λ a h. tt,
  )

  call_back_lem : (callback : Option (ℕ → Bool)) → Triple (call_back callback) Any
  call_back_lem none d = pure_lem Any d tt tt
  call_back_lem (some raises) d = called_lem (raises (length d.journal)) d

  speak_lem : (text : Text) → Triple (perform (spoke text)) (Spoken text)
  unfolding history_of
  speak_lem text d = (
    record { added = spoke text ∷ []; journal = refl; quiet = refl; history = refl },
    λ a h. Says-right text d.journal (spoke text ∷ []) (inl refl),
  )

  written_lem :
      (id : Option RecordId) (effect : RecordId → Effect RecordId) (d : Dispatcher RecordId)
      → ((i : RecordId) → history_of (effect i ∷ []) ≡ [])
      → Ends Any d (written id effect d)
  unfolding history_of
  written_lem none effect d q = (
    record { added = []; journal = sym (append-nil d.journal); quiet = refl; history = refl },
    λ a h. tt,
  )
  written_lem (some i) effect d q =
      (record { added = effect i ∷ []; journal = refl; quiet = q i; history = refl }, λ a h. tt)

  -- A record has the name of its call, and the agent told of its problem.
  abbrev pub Reports : Text → Dispatcher RecordId → DispatchRecord RecordId → Type 0
  Reports name d r = (r.name ≡ name) × (r.status ≢ ok → Says r.detail d.journal)

module _ {RecordId : Type 0} (s : Setting RecordId) where
  write_lem :
      (effect : RecordId → Effect RecordId)
      → ((i : RecordId) → history_of (effect i ∷ []) ≡ [])
      → Triple (write s effect) Any
  write_lem effect q d = written_lem (s.id_of_write d.writes) effect d q

  add_reply_lem :
      (conversation : Option RecordId) (text : Text) → Triple (add_reply s conversation text) Any
  unfolding add_reply history_of
  add_reply_lem none text d = pure_lem Any d none tt
  add_reply_lem (some c) text d =
      bind_lem Any Any (write s (added_reply c text)) (λ id. pure (some id))
        (write_lem (added_reply c text) (λ i. refl)) (λ i e _. pure_lem Any e (some i) tt) d

  agent_replies_lem : (text : Text) → Triple (agent_replies s text) (Spoken text)
  unfolding agent_replies
  agent_replies_lem text =
      bind_lem Any (Spoken text) (add_reply s s.conversation_id text)
        (λ id. perform (spoke text) >> pure id) (add_reply_lem s.conversation_id text)
        (λ id d _.
          bind_lem (Spoken text) (Spoken text) (perform (spoke text)) (λ _. pure id)
            (speak_lem text) (λ _ d' h. pure_lem (Spoken text) d' id h) d)

  agent_thinks_lem :
      (conversation : Option RecordId) (text : Text) → Triple (agent_thinks s conversation text) Any
  unfolding agent_thinks history_of
  agent_thinks_lem none text d = pure_lem Any d none tt
  agent_thinks_lem (some c) text d =
      bind_lem Any Any (write s (added_thought c text)) (λ id. pure (some id))
        (write_lem (added_thought c text) (λ i. refl)) (λ i e _. pure_lem Any e (some i) tt) d

  problem_lem :
      (name : Text) (status : Status) (detail : Text)
      → Triple (problem s name status detail) (Reports name)
  unfolding problem
  problem_lem name status detail =
      bind_lem (Spoken detail) (Reports name) (agent_replies s detail) _ (agent_replies_lem detail)
        (λ id d h. pure_lem (Reports name) d _ (refl, λ _. h))

  tell_lem :
      (send : Text → M RecordId (Option RecordId)) (name : Name) (payload : Payload) (text : Text)
      → ((t : Text) → Triple (send t) Any)
      → Triple (tell s send name payload text) (Reports (text_of name))
  unfolding tell
  tell_lem send name payload [] h = problem_lem (text_of name) malformed _
  tell_lem send name payload (c ∷ text) h =
      bind_lem Any (Reports (text_of name)) (send (c ∷ text)) _ (h (c ∷ text))
        (λ id d _. pure_lem (Reports (text_of name)) d _ (refl, λ n. absurd (n refl)))

  turn_off_lem : Triple (turn_off s) (Reports (text_of conversation_mode_off))
  unfolding turn_off history_of
  turn_off_lem =
      bind_lem Any (Reports (text_of conversation_mode_off)) (call_back s.mode_callback) _
        (call_back_lem s.mode_callback)
        (λ id d _.
          pure_lem (Reports (text_of conversation_mode_off)) d _ (refl, λ n. absurd (n refl)))

  remember_lem :
      (name : Name) (effect : Text → Text → RecordId → Effect RecordId) (memory : Text × Text)
      → ((t u : Text) (i : RecordId) → history_of (effect t u i ∷ []) ≡ [])
      → Triple (remember s name effect memory) (Reports (text_of name))
  unfolding remember
  remember_lem name effect (title, description) q =
      bind_lem Any (Reports (text_of name)) (write s (effect title description)) _
        (write_lem (effect title description) (q title description))
        (λ id d _. pure_lem (Reports (text_of name)) d _ (refl, λ n. absurd (n refl)))

  remember_in_session_lem :
      (session : Option RecordId) (payload : Payload)
      → Triple (remember_in_session s session payload) (Reports (text_of session_memory))
  unfolding remember_in_session history_of
  remember_in_session_lem none payload = problem_lem (text_of session_memory) unsupported _
  remember_in_session_lem (some session) payload =
      remember_lem session_memory (created_session_memory session) _ (λ t u i. refl)

  replies_lem : (text : Text) → Triple (agent_replies s text) Any
  replies_lem text d = ((agent_replies_lem text d).0, λ a e. tt)

  -- Whatever a call is, its record has its name, and the agent told of its problem.
  pub dispatch_call_lem :
      (name : Name) (payload : Payload)
      → Triple (dispatch_call s name payload) (Reports (shown name))
  unfolding dispatch_call history_of
  dispatch_call_lem (unsupported_name name) payload = problem_lem _ unsupported _
  dispatch_call_lem agent_reply payload =
      tell_lem (agent_replies s) agent_reply payload _ replies_lem
  dispatch_call_lem agent_thought payload =
      tell_lem (agent_thinks s s.conversation_id) agent_thought payload _
        (agent_thinks_lem s.conversation_id)
  dispatch_call_lem conversation_mode_off payload = turn_off_lem
  dispatch_call_lem session_memory payload = remember_in_session_lem s.session_id payload
  dispatch_call_lem user_preference payload =
      remember_lem user_preference created_preference _ (λ t u i. refl)
