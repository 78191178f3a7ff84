-- ===== src/Workspace/Effects/Frames.antt =====
-- What a coroutine of agent-host/src/reframe_agent_host/workspace does to the shared state, by the
-- parts it is made of: a relation that the parts respect is respected by the whole.
use reframe_web.Prelude.{ℕ, Bool, suc, [], ◌∷◌, ◌++◌}
use reframe_web.Workspace.Outbox.{prune}
use reframe_web.Workspace.Effects.{
  Outcome, works, lost, fails, Resource, acquired, released, asked, Request, World, Problem, Result,
  returned, raised, Prog, pure, raise, resume, handle, finally, note, attempt, call, query, request,
  within, ◌>>◌, Event, mount, database, wake, daemon_call, in_database, mounted,
}

-- The laws of a relation between the states before and after.
pub record Frame (R : World → World → Type 0) : Type 0 where
  pub reflexive : (w : World) → R w w
  pub transitive : (u v w : World) → R u v → R v w → R u w
  pub counts : (w : World) (n : ℕ) → R w (record w { calls = n })
  pub notes : (w : World) (e : Event) → R w (record w { journal = w.journal ++ e ∷ [] })
  pub prunes : (w : World) (old : ℕ → Bool) → R w (record w { rows = prune old w.rows })

module _ (R : World → World → Type 0) where
  abbrev pub Respects : {A : Type 0} → Prog A → Type 0
  Respects m = (w : World) → R w (m w).0

module _ {R : World → World → Type 0} (f : Frame R) where
  pub pure-Respects : {A : Type 0} (a : A) → Respects R (pure a)
  pure-Respects a w = f.reflexive w

  pub raise-Respects : (A : Type 0) (e : Problem) → Respects R (raise {A = A} e)
  raise-Respects A e w = f.reflexive w

  pub resume_on :
      {A B : Type 0} (u : World) (r : World × Result A) (h : Problem → Prog B) (k : A → Prog B)
      → R u r.0
      → ((e : Problem) → Respects R (h e))
      → ((a : A) → Respects R (k a))
      → R u (resume r h k).0
  resume_on u (w, returned a) h k p hs ks = f.transitive u w (k a w).0 p (ks a w)
  resume_on u (w, raised e) h k p hs ks = f.transitive u w (h e w).0 p (hs e w)

  pub handle-Respects :
      {A B : Type 0} (m : Prog A) (h : Problem → Prog B) (k : A → Prog B)
      → Respects R m
      → ((e : Problem) → Respects R (h e))
      → ((a : A) → Respects R (k a))
      → Respects R (handle m h k)
  handle-Respects m h k ms hs ks w = resume_on w (m w) h k (ms w) hs ks

  pub then-Respects :
      {A B : Type 0} (m : Prog A) (k : A → Prog B)
      → Respects R m
      → ((a : A) → Respects R (k a))
      → Respects R (handle m raise k)
  then-Respects {B = B} m k ms ks = handle-Respects m raise k ms (raise-Respects B) ks

  attempt_on :
      {A : Type 0} (u w : World) (o : Outcome) (effect : Prog A)
      → R u w
      → Respects R effect
      → R u (attempt o effect w).0
  attempt_on u w works effect p es = f.transitive u w (effect w).0 p (es w)
  attempt_on u w lost effect p es = f.transitive u w (effect w).0 p (es w)
  attempt_on u w fails effect p es = p

  pub call-Respects :
      {A : Type 0} (outcome : ℕ → Outcome) (effect : ℕ → Prog A)
      → ((n : ℕ) → Respects R (effect n))
      → Respects R (call outcome effect)
  call-Respects outcome effect es w =
      attempt_on w (record w { calls = suc w.calls }) (outcome w.calls) (effect w.calls)
        (f.counts w (suc w.calls)) (es w.calls)

  pub query-Respects :
      {A : Type 0} (outcome : ℕ → Outcome) (answer : ℕ → A) → Respects R (query outcome answer)
  query-Respects outcome answer =
      call-Respects outcome (λ n. pure (answer n)) (λ n. pure-Respects (answer n))

  pub daemon_call-Respects :
      {A : Type 0} (outcome : ℕ → Outcome) (expired : ℕ → ℕ → Bool) (effect : ℕ → Prog A)
      → ((n : ℕ) → Respects R (effect n))
      → Respects R (daemon_call outcome expired effect)
  daemon_call-Respects outcome expired effect es =
      then-Respects (wake expired) (λ u. call outcome effect) (λ w. f.prunes w (expired w.calls))
        (λ u. call-Respects outcome effect es)

  pub request-Respects :
      {A : Type 0} (outcome : ℕ → Outcome) (expired : ℕ → ℕ → Bool) (q : Request)
      (effect : ℕ → Prog A)
      → ((n : ℕ) → Respects R (effect n))
      → Respects R (request outcome expired q effect)
  request-Respects outcome expired q effect es =
      then-Respects (note (asked q)) (λ u. daemon_call outcome expired effect)
        (λ w. f.notes w (asked q)) (λ u. daemon_call-Respects outcome expired effect es)

  -- A request that only answers
  pub ask-Respects :
      {A : Type 0} (outcome : ℕ → Outcome) (expired : ℕ → ℕ → Bool) (q : Request) (answer : ℕ → A)
      → Respects R (request outcome expired q (λ n. pure (answer n)))
  ask-Respects outcome expired q answer =
      request-Respects outcome expired q (λ n. pure (answer n)) (λ n. pure-Respects (answer n))

  pub finally-Respects :
      {A B : Type 0} (body : Prog A) (last : Prog B)
      → Respects R body
      → Respects R last
      → Respects R (finally body last)
  finally-Respects {A = A} body last bs ls =
      handle-Respects body (λ e. handle last raise (λ b. raise e))
        (λ a. handle last raise (λ b. pure a)) bs
        (λ e. then-Respects last (λ b. raise e) ls (λ b. raise-Respects A e))
        (λ a. then-Respects last (λ b. pure a) ls (λ b. pure-Respects a))

  within-Respects :
      {A : Type 0} (acquire release : Prog (Unit {0})) (r : Resource) (body : Prog A)
      → Respects R acquire
      → Respects R release
      → Respects R body
      → Respects R (within acquire release r body)
  within-Respects acquire release r body opens closes bs =
      let last : Prog (Unit {0}) = (do release; note (released r)) in
      then-Respects acquire (λ u. do note (acquired r); finally body last) opens
        (λ u.
          then-Respects (note (acquired r)) (λ v. finally body last) (λ w. f.notes w (acquired r))
            (λ v. finally-Respects body last bs (
              then-Respects release (λ x. note (released r)) closes
                (λ x w. f.notes w (released r)))))

  pub in_database-Respects :
      {A : Type 0} (outcome : ℕ → Outcome) (body : Prog A)
      → Respects R body
      → Respects R (in_database outcome body)
  in_database-Respects outcome body =
      within-Respects (query outcome (λ n. tt)) (query outcome (λ n. tt)) database body
        (query-Respects outcome (λ n. tt)) (query-Respects outcome (λ n. tt))

  pub mounted-Respects :
      {A : Type 0} (outcome : ℕ → Outcome) (expired : ℕ → ℕ → Bool) (id : ℕ) (body : Prog A)
      → Respects R body
      → Respects R (mounted outcome expired id body)
  mounted-Respects outcome expired id body =
      let step : Prog (Unit {0}) = daemon_call outcome expired (λ n. pure tt) in
      let respects : Respects R step =
        daemon_call-Respects outcome expired (λ n. pure tt) (λ n. pure-Respects tt) in
      within-Respects step step (mount id) body respects respects
