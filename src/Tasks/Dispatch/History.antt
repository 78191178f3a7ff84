-- ===== src/Tasks/Dispatch/History.antt =====
-- The task history around the calls of a dispatch.
use reframe_web.Prelude.{
  ◌≡◌, ◌≢◌, refl, sym, ap, subst, ◌∙◌, true, Option, none, some, is_some, List, [], ◌∷◌, ◌++◌,
  append-nil, append_assoc, All, map,
}
use reframe_web.Tasks.Dispatch.{
  Call, ok, DispatchRecord, Effect, appended_node, created_task_history, Setting, Dispatcher,
  DispatchResult, go_on, pure, written, dispatch_all, create_task_history, ensure_task_history,
  append_node, dispatch,
}
use reframe_web.Tasks.Dispatch.Runs.{history_of, history_of-append, Says, shown}
use reframe_web.Tasks.Dispatch.Records.{
  Recorded, IsAnswered, After, told_lem, pure_lem, bind_lem, dispatch_all_lem,
}

module _ {RecordId : Type 0} where
  -- The history of a dispatch: none without both a session and a conversation
  abbrev pub owned : Option RecordId → Option RecordId → Option RecordId → Option RecordId
  owned (some session) (some conversation) history = history
  owned none conversation history = none
  owned (some session) none history = none

  -- A node of the history lists these actions; without a history there is none.
  abbrev pub HasNode :
      Option RecordId
      → Option RecordId
      → Option RecordId
      → List RecordId
      → Option RecordId
      → List (Effect RecordId)
      → Type 0
  HasNode none session conversation ids node es = (node ≡ none) × (es ≡ [])
  HasNode (some history) session conversation ids node es =
      (s : RecordId) × (c : RecordId) × (n : RecordId) × (session ≡ some s)
      × (conversation ≡ some c)
      × (node ≡ some n)
      × (es ≡ appended_node history s c ids n ∷ [])

  record IsEnsured (session conversation : Option RecordId) (d d' : Dispatcher RecordId)
      (history : Option RecordId) : Type 0 where
    added : List (Effect RecordId)
    journal : d'.journal ≡ d.journal ++ added
    quiet : history_of added ≡ []
    kept : (h : RecordId) → d.task_history_id ≡ some h → d'.task_history_id ≡ some h
    returned : history ≡ owned session conversation d'.task_history_id
    created :
        is_some session ≡ true → is_some conversation ≡ true → is_some d'.task_history_id ≡ true

  record IsAppended (history session conversation : Option RecordId) (ids : List RecordId)
      (d d' : Dispatcher RecordId) (node : Option RecordId) : Type 0 where
    added : List (Effect RecordId)
    journal : d'.journal ≡ d.journal ++ added
    same_history : d'.task_history_id ≡ d.task_history_id
    has_node : HasNode history session conversation ids node (history_of added)

  -- The journal of a dispatch, its task history and its result belong together.
  pub record IsLogged (session conversation : Option RecordId) (calls : List Call)
      (d d' : Dispatcher RecordId) (result : DispatchResult RecordId) : Type 0 where
    pub ids : List RecordId
    pub added : List (Effect RecordId)
    pub recordings : List (Effect RecordId)
    pub node : List (Effect RecordId)
    pub journal : d'.journal ≡ d.journal ++ added
    pub in_order : history_of added ≡ recordings ++ node
    pub recorded : Recorded d'.task_history_id calls result.records ids recordings
    pub has_node :
        HasNode result.task_history_id session conversation ids result.task_history_node_id node
    pub returned : result.task_history_id ≡ owned session conversation d'.task_history_id
    pub created :
        is_some session ≡ true → is_some conversation ≡ true → is_some d'.task_history_id ≡ true
    pub kept : (h : RecordId) → d.task_history_id ≡ some h → d'.task_history_id ≡ some h
    pub names : map (λ r. r.name) result.records ≡ map (λ call. shown call.name) calls
    pub told : All (λ r. r.status ≢ ok → Says r.detail d'.journal) result.records

module _ {RecordId : Type 0} where
  later_lem :
      (rs : List (DispatchRecord RecordId)) (es : List (Effect RecordId))
      (d d' : Dispatcher RecordId)
      → d'.journal ≡ d.journal ++ es
      → All (λ r. r.status ≢ ok → Says r.detail d.journal) rs
      → All (λ r. r.status ≢ ok → Says r.detail d'.journal) rs
  later_lem [] es d d' e h = tt
  later_lem (r ∷ rs) es d d' e (h, hs) = (told_lem es d d' r e h, later_lem rs es d d' e hs)

module _ {RecordId : Type 0} (s : Setting RecordId) where
  unchanged_lem :
      (session conversation : Option RecordId) (d : Dispatcher RecordId) (history : Option RecordId)
      → history ≡ owned session conversation d.task_history_id
      → (is_some session ≡ true → is_some conversation ≡ true → is_some d.task_history_id ≡ true)
      → IsEnsured session conversation d d history
  unfolding history_of
  unchanged_lem session conversation d history e c = record {
    added = [];
    journal = sym (append-nil d.journal);
    quiet = refl;
    kept = λ h x. x;
    returned = e;
    created = c;
  }

  created_lem :
      (id : Option RecordId) (session conversation : RecordId) (d : Dispatcher RecordId)
      → d.task_history_id ≡ none
      → After (IsEnsured (some session) (some conversation) d) (
          go_on
            (written id created_task_history d)
            (λ i e. (record e { task_history_id = some i }, some (some i))))
  unfolding history_of
  created_lem none session conversation d h = λ a e. absurd (cc e)
  created_lem (some i) session conversation d h =
      pure_lem (IsEnsured (some session) (some conversation) d) _ (some i) (record {
        added = created_task_history i ∷ [];
        journal = refl;
        quiet = refl;
        kept = λ x e. absurd (cc (h, e));
        returned = refl;
        created = λ _ _. refl;
      })

  create_lem :
      (history : Option RecordId) (session conversation : RecordId) (d : Dispatcher RecordId)
      → d.task_history_id ≡ history
      → After (IsEnsured (some session) (some conversation) d) (create_task_history s history d)
  unfolding create_task_history
  create_lem none session conversation d h =
      created_lem (s.id_of_write d.writes) session conversation d h
  create_lem (some x) session conversation d h =
      pure_lem (IsEnsured (some session) (some conversation) d) d (some x)
        (unchanged_lem (some session) (some conversation) d (some x) (sym h) (λ _ _. ap is_some h))

  ensure_lem :
      (session conversation : Option RecordId) (d : Dispatcher RecordId)
      → After (IsEnsured session conversation d) (ensure_task_history s session conversation d)
  unfolding ensure_task_history
  ensure_lem (some session) (some conversation) d =
      create_lem d.task_history_id session conversation d refl
  ensure_lem none conversation d =
      pure_lem (IsEnsured none conversation d) d none
        (unchanged_lem none conversation d none refl (λ e _. absurd (cc e)))
  ensure_lem (some session) none d =
      pure_lem (IsEnsured (some session) none d) d none
        (unchanged_lem (some session) none d none refl (λ _ e. absurd (cc e)))

  appended_lem :
      (id : Option RecordId) (history session conversation : RecordId) (ids : List RecordId)
      (d : Dispatcher RecordId)
      → After (IsAppended (some history) (some session) (some conversation) ids d) (
          go_on
            (written id (appended_node history session conversation ids) d)
            (λ i. pure (some i)))
  unfolding history_of
  appended_lem none history session conversation ids d = λ a e. absurd (cc e)
  appended_lem (some i) history session conversation ids d =
      pure_lem (IsAppended (some history) (some session) (some conversation) ids d) _ (some i)
        (record {
          added = appended_node history session conversation ids i ∷ [];
          journal = refl;
          same_history = refl;
          has_node = (session, conversation, i, refl, refl, refl, refl);
        })

  append_lem :
      (history session conversation : Option RecordId) (ids : List RecordId)
      (d : Dispatcher RecordId)
      → (owner : Option RecordId) → history ≡ owned session conversation owner
      → After
          (IsAppended history session conversation ids d)
          (append_node s history session conversation ids d)
  unfolding append_node history_of
  append_lem (some history) (some session) (some conversation) ids d o e =
      appended_lem (s.id_of_write d.writes) history session conversation ids d
  append_lem none session conversation ids d o e =
      pure_lem (IsAppended none session conversation ids d) d none (record {
        added = [];
        journal = sym (append-nil d.journal);
        same_history = refl;
        has_node = (refl, refl);
      })
  append_lem (some history) none conversation ids d o e = absurd (cc e)
  append_lem (some history) (some session) none ids d o e = absurd (cc e)

  logged_lem :
      (calls : List Call) (d d1 d2 d3 : Dispatcher RecordId) (history node_id : Option RecordId)
      (rs : List (DispatchRecord RecordId)) (ids : List RecordId)
      → IsEnsured s.session_id s.conversation_id d d1 history
      → IsAnswered calls d1 d2 rs ids
      → IsAppended history s.session_id s.conversation_id ids d2 d3 node_id
      → IsLogged s.session_id s.conversation_id calls d d3
          (record { records = rs; task_history_id = history; task_history_node_id = node_id })
  logged_lem calls d d1 d2 d3 history node_id rs ids x y z =
      let same : d1.task_history_id ≡ d3.task_history_id = sym (z.same_history ∙ y.same_history) in
      record {
        ids = ids;
        added = x.added ++ (y.added ++ z.added);
        recordings = history_of y.added;
        node = history_of z.added;
        journal =
            z.journal
            ∙ ap (λ j. j ++ z.added) (y.journal ∙ ap (λ j. j ++ y.added) x.journal)
            ∙ append_assoc (d.journal ++ x.added) y.added z.added
            ∙ append_assoc d.journal x.added (y.added ++ z.added);
        in_order =
            history_of-append x.added (y.added ++ z.added)
            ∙ ap (λ h. h ++ history_of (y.added ++ z.added)) x.quiet
            ∙ history_of-append y.added z.added;
        recorded = subst (λ o. Recorded o calls rs ids (history_of y.added)) same y.recorded;
        has_node = z.has_node;
        returned = x.returned ∙ ap (owned s.session_id s.conversation_id) same;
        created = λ e f. ap is_some (sym same) ∙ x.created e f;
        kept = λ h e. sym same ∙ x.kept h e;
        names = y.names;
        told = later_lem rs z.added d2 d3 z.journal y.told;
      }

  -- If a dispatch of some calls returns, it has one record for each call, in order and with its name;
  -- the agent began to speak the detail of each that is not ok; and with a task history, it recorded
  -- one action for each call, in order, with the name, the input and the output of its record, and then
  -- one node that lists just these actions, if there are a session and a conversation, with which there
  -- always is a history.
  pub dispatch-IsLogged :
      (calls : List Call) (d : Dispatcher RecordId) (result : DispatchResult RecordId)
      → (dispatch s (some calls) d).1 ≡ some result
      → IsLogged s.session_id s.conversation_id calls d (dispatch s (some calls) d).0 result
  unfolding dispatch
  dispatch-IsLogged calls d =
      let Q : Dispatcher RecordId → DispatchResult RecordId → Type 0 =
        IsLogged s.session_id s.conversation_id calls d in
      bind_lem (IsEnsured s.session_id s.conversation_id d) Q
        (ensure_task_history s s.session_id s.conversation_id d) _
        (ensure_lem s.session_id s.conversation_id d)
        (λ history d1 x.
          bind_lem (λ d' out. IsAnswered calls d1 d' out.0 out.1) Q (dispatch_all s calls d1) _
            (dispatch_all_lem s calls d1)
            (λ out d2 y.
              bind_lem (IsAppended history s.session_id s.conversation_id out.1 d2) Q
                (append_node s history s.session_id s.conversation_id out.1 d2) _
                (append_lem history s.session_id s.conversation_id out.1 d2 d1.task_history_id
                  x.returned)
                (λ node d3 z.
                  pure_lem Q d3 _ (logged_lem calls d d1 d2 d3 history node out.0 out.1 x y z))))
