-- ===== src/Workspace/Service/Policy.antt =====
-- What the retries of a request may do.
use reframe_web.Prelude.{
  ℕ, zero, suc, ◌+◌, ◌≤◌, ◌≡◌, ◌≢◌, refl, ap, sym, ◌∙◌, Bool, true, ◌⊎◌, inl, inr, Option, none,
  some, List, [], ◌∷◌, ◌++◌, ◌==◌, ==_iff, if◌then◌else◌, if_ind, length, replicate, append-nil,
  append_assoc, arith,
}
use reframe_web.Workspace.Operations.{
  WorkspaceOperation, operation_metadata, is_process_local, Request,
}
use reframe_web.Workspace.Service.{
  Outcome, success, failure, Response, Attempt, no_connection, launch_failed, write_failed,
  read_failed, unreadable, invalid_envelope, responds, Reply, returned, request_too_large,
  transport_error, outcome_unknown, Daemon, wrong_request_id, of_outcome, answer, settle, writes,
  attempt_once, attempt_all, request,
}

replicate-append :
    {A : Type 0} (m n : ℕ) (a : A) → replicate m a ++ replicate n a ≡ replicate (m + n) a
replicate-append zero n a = let e : n ≡ 0 + n = omega arith in ap (λ i. replicate i a) e
replicate-append (suc m) n a =
    let e : suc (m + n) ≡ suc m + n = omega arith in
    ap (◌∷◌ a) (replicate-append m n a) ∙ ap (λ i. replicate i a) e

module _ {Value Problem : Type 0} where
  -- An attempt that met a response of success to the request with this number.
  abbrev pub Succeeds : ℕ → Value → Attempt Value Problem → Type 0
  Succeeds number value attempt =
      (response : Response Value Problem) × (attempt ≡ responds response)
      × (response.request_id ≡ number)
      × (response.outcome ≡ success value)

  abbrev pub Answered : ℕ → Value → List (Attempt Value Problem) → Type 0
  Answered number value [] = ⊥
  Answered number value (attempt ∷ attempts) =
      Succeeds number value attempt ⊎ Answered number value attempts

  outcome_lem :
      (o : Outcome Value Problem)
      → ((value : Value) → of_outcome o ≡ returned value → o ≡ success value)
        × (of_outcome o ≢ outcome_unknown)
  unfolding of_outcome
  outcome_lem (success v) = (λ value e. cc e, λ e. cc e)
  outcome_lem (failure p) = (λ value e. absurd (cc e), λ e. cc e)

  answer_lem :
      (number : ℕ) (response : Response Value Problem)
      → ((value : Value)
          → answer number response ≡ returned value
          → (response.request_id ≡ number) × (response.outcome ≡ success value))
        × (answer number response ≢ outcome_unknown)
  unfolding answer
  answer_lem number response =
      let (value_from, known) = outcome_lem response.outcome in
      if_ind
        (λ (r : Reply Value Problem).
          ((value : Value)
            → r ≡ returned value
            → (response.request_id ≡ number) × (response.outcome ≡ success value))
          × (r ≢ outcome_unknown))
        (response.request_id == number) (of_outcome response.outcome) wrong_request_id
        (λ same.
          (λ value e. ((==_iff response.request_id number).0 same, value_from value e), known))
        (λ _. (λ value e. absurd (cc e), λ e. cc e))

  settle_lem :
      (number : ℕ) (attempt : Attempt Value Problem) (reply : Reply Value Problem)
      → settle number attempt ≡ some reply
      → ((value : Value) → reply ≡ returned value → Succeeds number value attempt)
        × (reply ≢ outcome_unknown)
  unfolding settle
  settle_lem number no_connection reply e = absurd cc
  settle_lem number launch_failed reply e = (λ value f. absurd (cc (e, f)), λ f. cc (e, f))
  settle_lem number write_failed reply e = absurd cc
  settle_lem number read_failed reply e = absurd cc
  settle_lem number unreadable reply e = (λ value f. absurd (cc (e, f)), λ f. cc (e, f))
  settle_lem number invalid_envelope reply e = (λ value f. absurd (cc (e, f)), λ f. cc (e, f))
  settle_lem number (responds response) reply e =
      let (value_from, known) = answer_lem number response in
      let same : answer number response ≡ reply = cc e in
      (
        λ value f.
            (response, refl, (value_from value (same ∙ f)).0, (value_from value (same ∙ f)).1),
        λ f. known (same ∙ f),
      )

  answered_lem :
      (number : ℕ) (value : Value) (first second : Attempt Value Problem)
      → Answered number value (first ∷ [])
      → Answered number value (first ∷ second ∷ [])
  answered_lem number value first second (inl x) = inl x
  answered_lem number value first second (inr x) = absurd x

module _ {Arguments Key Value Problem : Type 0} where
  -- The requests written, all the same; and where a value or an unknown outcome comes from.
  pub record Kept (d : Daemon Arguments Key) (r : Request Arguments Key)
      (attempts : List (Attempt Value Problem)) (last_error : Reply Value Problem)
      (result : Daemon Arguments Key × Reply Value Problem) : Type 0 where
    pub times : ℕ
    pub written : result.0.written ≡ d.written ++ replicate times r
    pub bounded : times ≤ length attempts
    pub answered :
        (value : Value)
        → result.1 ≡ returned value
        → Answered r.request_id value attempts ⊎ (last_error ≡ returned value)
    pub unknown : result.1 ≡ outcome_unknown → last_error ≡ outcome_unknown

  once_lem :
      (d : Daemon Arguments Key) (r : Request Arguments Key) (attempt : Attempt Value Problem)
      → (n : ℕ) × (n ≤ 1) × ((attempt_once d r attempt).written ≡ d.written ++ replicate n r)
  unfolding attempt_once
  once_lem d r attempt =
      if_ind (λ w. (n : ℕ) × (n ≤ 1) × (w ≡ d.written ++ replicate n r))
        (writes d.connected attempt) (d.written ++ r ∷ []) d.written (λ _. (1, omega arith, refl))
        (λ _. (0, omega arith, sym (append-nil d.written)))

  step_lem :
      (d : Daemon Arguments Key) (r : Request Arguments Key) (attempt : Attempt Value Problem)
      (attempts : List (Attempt Value Problem)) (last_error : Reply Value Problem)
      (settled : Option (Reply Value Problem))
      → settle r.request_id attempt ≡ settled
      → Kept
          (attempt_once d r attempt)
          r
          attempts
          last_error
          (attempt_all (attempt_once d r attempt) r attempts last_error)
      → Kept d r (attempt ∷ attempts) last_error (elim settled [
        | none ↦ attempt_all (attempt_once d r attempt) r attempts last_error
        | some reply ↦ (attempt_once d r attempt, reply)
      ])
  step_lem d r attempt attempts last_error none e v =
      let (n, small, once) = once_lem d r attempt in
      record {
        times = n + v.times;
        written =
            v.written
            ∙ ap (λ w. w ++ replicate v.times r) once
            ∙ append_assoc d.written (replicate n r) (replicate v.times r)
            ∙ ap (λ w. d.written ++ w) (replicate-append n v.times r);
        bounded = omega (arith, small, v.bounded);
        answered = λ value f. elim (v.answered value f) [ inl x ↦ inl (inr x) | inr x ↦ inr x ];
        unknown = v.unknown;
      }
  step_lem d r attempt attempts last_error (some reply) e v =
      let (n, small, once) = once_lem d r attempt in
      let (value_from, known) = settle_lem r.request_id attempt reply e in
      record {
        times = n;
        written = once;
        bounded = omega (arith, small);
        answered = λ value f. inl (inl (value_from value f));
        unknown = λ f. absurd (known f);
      }

  attempt_all_lem :
      (d : Daemon Arguments Key) (r : Request Arguments Key)
      (attempts : List (Attempt Value Problem)) (last_error : Reply Value Problem)
      → Kept d r attempts last_error (attempt_all d r attempts last_error)
  unfolding attempt_all
  attempt_all_lem d r [] last_error = record {
    times = 0;
    written = sym (append-nil d.written);
    bounded = omega arith;
    answered = λ value e. inr e;
    unknown = λ e. e;
  }
  attempt_all_lem d r (attempt ∷ attempts) last_error =
      step_lem d r attempt attempts last_error (settle r.request_id attempt) refl
        (attempt_all_lem (attempt_once d r attempt) r attempts last_error)

  -- What the caller of `_request` and the daemon rely on.
  pub record IsPolite (d : Daemon Arguments Key) (operation : WorkspaceOperation) (key : Key)
      (attempts : List (Attempt Value Problem))
      (result : Daemon Arguments Key × Reply Value Problem) : Type 0 where
    pub sent : Request Arguments Key
    pub times : ℕ
    pub written : result.0.written ≡ d.written ++ replicate times sent
    pub twice : times ≤ 2
    pub once : is_process_local (operation_metadata operation).idempotency_scope ≡ true → times ≤ 1
    pub keyed : (operation_metadata operation).mutates ≡ true → sent.idempotency_key ≡ some key
    pub unknown :
        result.1 ≡ outcome_unknown
        → is_process_local (operation_metadata operation).idempotency_scope ≡ true
    pub answered :
        (value : Value) → result.1 ≡ returned value → Answered (d.request_number + 1) value attempts

  -- Whatever its two attempts meet, a request of the daemon client writes one and the same request, at
  -- most twice, and at most once for a process-local mutation; a mutation carries its idempotency key;
  -- the outcome is reported as unknown only for a process-local mutation; and a value is returned only
  -- from a successful response to this request in one of the two attempts.
  pub request-IsPolite :
      (d : Daemon Arguments Key) (operation : WorkspaceOperation) (arguments : Arguments)
      (key : Key) (fits : Request Arguments Key → Bool) (first second : Attempt Value Problem)
      → IsPolite d operation key
          (first ∷ second ∷ [])
          (request d operation arguments key fits first second)
  unfolding request
  request-IsPolite d operation arguments key fits first second =
      let number : ℕ = d.request_number + 1 in
      let d' : Daemon Arguments Key = record d { request_number = number } in
      let r : Request Arguments Key = record {
        request_id = number;
        operation = operation;
        idempotency_key = if (operation_metadata operation).mutates then some key else none;
        arguments = arguments;
      } in
      let keyed : (operation_metadata operation).mutates ≡ true → r.idempotency_key ≡ some key =
        λ e. ap (λ b. if b then some key else none) e in
      let P : Daemon Arguments Key × Reply Value Problem → Type 0 =
        IsPolite d operation key (first ∷ second ∷ []) in
      let v1 : Kept d' r (first ∷ []) outcome_unknown
          (attempt_all d' r (first ∷ []) outcome_unknown) =
        attempt_all_lem d' r (first ∷ []) outcome_unknown in
      let v2 : Kept d' r (first ∷ second ∷ []) transport_error
          (attempt_all d' r (first ∷ second ∷ []) transport_error) =
        attempt_all_lem d' r (first ∷ second ∷ []) transport_error in
      if_ind P (fits r) _ (d', request_too_large)
        (λ _.
          if_ind P (is_process_local (operation_metadata operation).idempotency_scope)
            (attempt_all d' r (first ∷ []) outcome_unknown)
            (attempt_all d' r (first ∷ second ∷ []) transport_error)
            (λ local. record {
              sent = r;
              times = v1.times;
              written = v1.written;
              twice = omega (arith, v1.bounded);
              once = λ _. omega (arith, v1.bounded);
              keyed = keyed;
              unknown = λ _. local;
              answered = λ value e. elim (v1.answered value e) [
                | inl x ↦ answered_lem number value first second x
                | inr x ↦ absurd (cc x)
              ];
            })
            (λ shared. record {
              sent = r;
              times = v2.times;
              written = v2.written;
              twice = omega (arith, v2.bounded);
              once = λ local. absurd (cc (local, shared));
              keyed = keyed;
              unknown = λ e. absurd (cc (v2.unknown e));
              answered =
                  λ value e. elim (v2.answered value e) [ inl x ↦ x | inr x ↦ absurd (cc x) ];
            }))
        (λ _. record {
          sent = r;
          times = 0;
          written = sym (append-nil d.written);
          twice = omega arith;
          once = λ _. omega arith;
          keyed = keyed;
          unknown = λ e. absurd (cc e);
          answered = λ value e. absurd (cc e);
        })
