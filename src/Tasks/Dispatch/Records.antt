-- ===== src/Tasks/Dispatch/Records.antt =====
-- What a dispatch leaves in its result and in the task history.
use reframe_web.Prelude.{
  suc, ◌≡◌, ◌≢◌, refl, sym, ap, subst, ◌∙◌, Option, none, some, List, [], ◌∷◌, ◌++◌, append-nil,
  append_assoc, All, length, map,
}
use reframe_web.Tasks.Dispatch.{
  Call, ok, DispatchRecord, Effect, recorded_action, input_of, Setting, Dispatcher, M, go_on, pure,
  written, dispatch_call, record_action, dispatch_all,
}
use reframe_web.Tasks.Dispatch.Runs.{
  history_of, history_of-append, Says, Says-left, Extends, Reports, shown, dispatch_call_lem,
}

module _ {RecordId : Type 0} where
  -- One action for each call, with its record
  abbrev pub actions :
      List Call → List (DispatchRecord RecordId) → List RecordId → List (Effect RecordId)
  actions [] rs ids = []
  actions (call ∷ calls) [] ids = []
  actions (call ∷ calls) (r ∷ rs) [] = []
  actions (call ∷ calls) (r ∷ rs) (id ∷ ids) =
      recorded_action r.name (input_of call.payload) r.output id ∷ actions calls rs ids

  -- What a task history gets: nothing where there is none
  abbrev pub Recorded :
      Option RecordId
      → List Call
      → List (DispatchRecord RecordId)
      → List RecordId
      → List (Effect RecordId)
      → Type 0
  Recorded none calls rs ids es = (ids ≡ []) × (es ≡ [])
  Recorded (some history) calls rs ids es =
      (length ids ≡ length calls) × (es ≡ actions calls rs ids)

  -- From one state to another, the calls were answered by these records.
  pub record IsAnswered (calls : List Call) (d d' : Dispatcher RecordId)
      (rs : List (DispatchRecord RecordId)) (ids : List RecordId) : Type 0 where
    pub added : List (Effect RecordId)
    pub journal : d'.journal ≡ d.journal ++ added
    pub same_history : d'.task_history_id ≡ d.task_history_id
    pub recorded : Recorded d.task_history_id calls rs ids (history_of added)
    pub names : map (λ r. r.name) rs ≡ map (λ call. shown call.name) calls
    pub told : All (λ r. r.status ≢ ok → Says r.detail d'.journal) rs

module _ {RecordId : Type 0} where
  -- The recording of one action
  record IsNoted (d d' : Dispatcher RecordId) (call : Call) (r : DispatchRecord RecordId)
      (ids : List RecordId) : Type 0 where
    added : List (Effect RecordId)
    journal : d'.journal ≡ d.journal ++ added
    same_history : d'.task_history_id ≡ d.task_history_id
    noted : Recorded d.task_history_id (call ∷ []) (r ∷ []) ids (history_of added)

  Recorded-cons :
      (history : Option RecordId) (call : Call) (calls : List Call) (r : DispatchRecord RecordId)
      (rs : List (DispatchRecord RecordId)) (ids ids' : List RecordId)
      (es es' : List (Effect RecordId))
      → Recorded history (call ∷ []) (r ∷ []) ids es
      → Recorded history calls rs ids' es'
      → Recorded history (call ∷ calls) (r ∷ rs) (ids ++ ids') (es ++ es')
  Recorded-cons none call calls r rs [] ids' es es' h k = (k.0, ap (λ x. x ++ es') h.1 ∙ k.1)
  Recorded-cons none call calls r rs (id ∷ ids) ids' es es' h k = absurd (cc (h.0))
  Recorded-cons (some history) call calls r rs [] ids' es es' h k = absurd (cc (h.0))
  Recorded-cons (some history) call calls r rs (id ∷ []) ids' es es' h k = (
    ap suc k.0,
    ap (λ x. x ++ es') h.1
        ∙ ap (◌∷◌ (recorded_action r.name (input_of call.payload) r.output id)) k.1,
  )
  Recorded-cons (some history) call calls r rs (id ∷ id' ∷ ids) ids' es es' h k = absurd (cc (h.0))

  -- What holds after an action that returns
  abbrev pub After :
      {A : Type 0} → (Dispatcher RecordId → A → Type 0) → Dispatcher RecordId × Option A → Type 0
  After {A} Q x = (a : A) → x.1 ≡ some a → Q x.0 a

  pub pure_lem :
      {A : Type 0} (Q : Dispatcher RecordId → A → Type 0) (d : Dispatcher RecordId) (a : A)
      → Q d a
      → After Q (d, some a)
  pure_lem Q d a q b e = subst (Q d) (cc e) q

  pub bind_lem :
      {A B : Type 0} (P : Dispatcher RecordId → A → Type 0) (Q : Dispatcher RecordId → B → Type 0)
      (x : Dispatcher RecordId × Option A) (f : A → M RecordId B)
      → After P x
      → ((a : A) (d' : Dispatcher RecordId) → P d' a → After Q (f a d'))
      → After Q (go_on x f)
  bind_lem P Q (d', none) f h k = λ b e. absurd (cc e)
  bind_lem P Q (d', some a) f h k = k a d' (h a refl)

  pub told_lem :
      (es : List (Effect RecordId)) (d d' : Dispatcher RecordId) (r : DispatchRecord RecordId)
      → d'.journal ≡ d.journal ++ es
      → (r.status ≢ ok → Says r.detail d.journal)
      → r.status ≢ ok
      → Says r.detail d'.journal
  told_lem es d d' r e h n = subst (Says r.detail) (sym e) (Says-left r.detail d.journal es (h n))

  Recorded-nil : (o : Option RecordId) → Recorded {RecordId = RecordId} o [] [] [] []
  Recorded-nil none = (refl, refl)
  Recorded-nil (some h) = (refl, refl)

module _ {RecordId : Type 0} (s : Setting RecordId) where
  noted_lem :
      (id : Option RecordId) (history : RecordId) (call : Call) (r : DispatchRecord RecordId)
      (d : Dispatcher RecordId)
      → d.task_history_id ≡ some history
      → After
          (λ d' ids. IsNoted d d' call r ids)
          (go_on
            (written id (recorded_action r.name (input_of call.payload) r.output) d)
            (λ i. pure (i ∷ [])))
  unfolding history_of
  noted_lem none history call r d h = λ ids e. absurd (cc e)
  noted_lem (some i) history call r d h =
      let entry : Effect RecordId = recorded_action r.name (input_of call.payload) r.output i in
      pure_lem (λ d' ids. IsNoted d d' call r ids) _ (i ∷ [])
        (record {
          added = entry ∷ [];
          journal = refl;
          same_history = refl;
          noted =
              subst (λ o. Recorded o (call ∷ []) (r ∷ []) (i ∷ []) (entry ∷ [])) (sym h)
                (refl, refl);
        })

  record_action_lem :
      (history : Option RecordId) (call : Call) (r : DispatchRecord RecordId)
      (d : Dispatcher RecordId)
      → d.task_history_id ≡ history
      → After (λ d' ids. IsNoted d d' call r ids) (record_action s history call.payload r d)
  unfolding record_action history_of
  record_action_lem none call r d h =
      pure_lem (λ d' ids. IsNoted d d' call r ids) d []
        (record {
          added = [];
          journal = sym (append-nil d.journal);
          same_history = refl;
          noted = subst (λ o. Recorded o (call ∷ []) (r ∷ []) [] []) (sym h) (refl, refl);
        })
  record_action_lem (some history) call r d h =
      noted_lem (s.id_of_write d.writes) history call r d h

  answered_lem :
      (call : Call) (calls : List Call) (r : DispatchRecord RecordId)
      (rs : List (DispatchRecord RecordId)) (ids ids' : List RecordId)
      (d d1 d2 d3 : Dispatcher RecordId)
      → Extends d d1
      → Reports (shown call.name) d1 r
      → IsNoted d1 d2 call r ids
      → IsAnswered calls d2 d3 rs ids'
      → IsAnswered (call ∷ calls) d d3 (r ∷ rs) (ids ++ ids')
  answered_lem call calls r rs ids ids' d d1 d2 d3 x reports y z =
      let before : d1.task_history_id ≡ d.task_history_id = x.history in
      let noted : Recorded d.task_history_id (call ∷ []) (r ∷ []) ids (history_of y.added) =
        subst (λ o. Recorded o (call ∷ []) (r ∷ []) ids (history_of y.added)) before y.noted in
      let recorded : Recorded d.task_history_id calls rs ids' (history_of z.added) =
        subst (λ o. Recorded o calls rs ids' (history_of z.added)) (y.same_history ∙ before)
          z.recorded in
      let later : d3.journal ≡ d1.journal ++ (y.added ++ z.added) =
        z.journal ∙ ap (λ j. j ++ z.added) y.journal ∙ append_assoc d1.journal y.added z.added in
      let split : history_of (x.added ++ (y.added ++ z.added))
          ≡ history_of y.added ++ history_of z.added =
        history_of-append x.added (y.added ++ z.added)
        ∙ ap (λ h. h ++ history_of (y.added ++ z.added)) x.quiet
        ∙ history_of-append y.added z.added in
      record {
        added = x.added ++ (y.added ++ z.added);
        journal =
            later
            ∙ ap (λ j. j ++ (y.added ++ z.added)) x.journal
            ∙ append_assoc d.journal x.added (y.added ++ z.added);
        same_history = z.same_history ∙ y.same_history ∙ before;
        recorded =
            subst (λ es. Recorded d.task_history_id (call ∷ calls) (r ∷ rs) (ids ++ ids') es)
              (sym split)
              (Recorded-cons d.task_history_id call calls r rs ids ids' (history_of y.added)
                (history_of z.added) noted recorded);
        names = cc (reports.0, z.names);
        told = (told_lem (y.added ++ z.added) d1 d3 r later reports.1, z.told);
      }

  pub dispatch_all_lem :
      (calls : List Call) (d : Dispatcher RecordId)
      → After (λ d' out. IsAnswered calls d d' out.0 out.1) (dispatch_all s calls d)
  unfolding dispatch_all history_of
  dispatch_all_lem [] d =
      pure_lem (λ d' out. IsAnswered [] d d' out.0 out.1) d ([], [])
        (record {
          added = [];
          journal = sym (append-nil d.journal);
          same_history = refl;
          recorded = Recorded-nil d.task_history_id;
          names = refl;
          told = tt;
        })
  dispatch_all_lem (call ∷ calls) d =
      let Q : Dispatcher RecordId → List (DispatchRecord RecordId) × List RecordId → Type 0 =
        λ d' out. IsAnswered (call ∷ calls) d d' out.0 out.1 in
      let (x, reports) = dispatch_call_lem s call.name call.payload d in
      bind_lem (λ d' r. Extends d d' × Reports (shown call.name) d' r) Q
        (dispatch_call s call.name call.payload d) _ (λ r e. (x, reports r e))
        (λ r d1 x1.
          bind_lem (λ d' ids. IsNoted d1 d' call r ids) Q
            (record_action s d1.task_history_id call.payload r d1) _
            (record_action_lem d1.task_history_id call r d1 refl)
            (λ ids d2 y.
              bind_lem (λ d' out. IsAnswered calls d2 d' out.0 out.1) Q (dispatch_all s calls d2) _
                (dispatch_all_lem calls d2)
                (λ out d3 z.
                  pure_lem Q d3 (r ∷ out.0, ids ++ out.1)
                    (answered_lem call calls r out.0 ids out.1 d d1 d2 d3 x1.0 x1.1 y z))))
