-- ===== src/Voice/Segmenter/Fields.antt =====
-- What the parts of the loop of agent-host/src/reframe_agent_host/voice/utterance_segmenter.py do to the
-- fields of the segmenter.
use reframe_web.Prelude.{
  ℕ, ◌+◌, ◌-◌, ◌*◌, ◌≤◌, ◌<◌, ◌≡◌, refl, ap, sym, ◌∙◌, Bool, true, false, ◌||◌, ◌==◌, if_ind, ◌⊎◌,
  inl, inr, Option, none, some, List, [], ◌∷◌, ◌++◌, arith, length, Bool-cases, Option-cases, ltb,
  if◌then◌else◌, total_length, concat, is_some, length-concat, length-drop,
}
use reframe_web.Voice.Vad.{VoiceActivityConfig, VoiceActivityDecision}
use reframe_web.Voice.Segmenter.{
  Segmenter, DetectedUtterance, UtteranceEvent, endpoint, resumed, confirmed, push_bounded, create,
  reset, build_utterance, endpoint_of, endpoint_event, after_decision, count_silence,
}

pub length-push_bounded {ℓ} :
    {A : Type ℓ} (limit : ℕ) (xs : List A) (x : A) → length (push_bounded limit xs x) ≤ limit
unfolding push_bounded
length-push_bounded limit xs x =
    omega (arith, length-drop (length (xs ++ x ∷ []) - limit) (xs ++ x ∷ []))

module _ {Sample F : Type 0} where
  -- An utterance that `_build_utterance` accepts.
  abbrev pub IsLongEnough : VoiceActivityConfig F → DetectedUtterance Sample → Type 0
  IsLongEnough config u =
      (u.sample_rate ≡ config.sample_rate)
      × (config.min_utterance_ms * config.sample_rate ≤ length u.samples * 1000)

pub is_none {ℓ} : {A : Type ℓ} (o : Option A) → is_some o ≡ false → o ≡ none
is_none none e = refl
is_none (some a) e = cc

module _ {Sample F D : Type 0} where
  pub record IsValid (s : Segmenter Sample F D) : Type 0 where
    pub chunk_pos : 0 < s.chunk_samples
    pub pre_roll_fits : length s.pre_roll ≤ s.pre_roll_limit
    pub counted : s.recording_samples ≡ total_length s.frames
    pub idle_endpoint : s.recording ≡ false → s.pending_endpoint ≡ none
    pub paired : is_some s.pending_end_samples ≡ is_some s.pending_endpoint
    pub held :
        (u : DetectedUtterance Sample)
        → s.pending_endpoint ≡ some u
        → IsLongEnough s.config u × (length u.samples ≤ total_length s.frames)

  pub create-IsValid :
      (detector : D) (config : VoiceActivityConfig F)
      → IsValid (create {Sample = Sample} detector config)
  unfolding create
  create-IsValid detector config = record {
    chunk_pos = omega arith;
    pre_roll_fits = omega arith;
    counted = refl;
    idle_endpoint = λ _. refl;
    paired = refl;
    held = λ u e. cc;
  }

  pub reset-IsValid : (s : Segmenter Sample F D) → 0 < s.chunk_samples → IsValid (reset s)
  unfolding reset
  reset-IsValid s pos = record {
    chunk_pos = pos;
    pre_roll_fits = omega arith;
    counted = refl;
    idle_endpoint = λ _. refl;
    paired = refl;
    held = λ u e. cc;
  }

  -- What an event, or none, says of the state before and the state after.
  abbrev pub Explains :
      Segmenter Sample F D → Option (UtteranceEvent Sample) → Segmenter Sample F D → Type 0
  Explains s none s' = s'.pending_endpoint ≡ s.pending_endpoint
  Explains s (some (endpoint u)) s' =
      IsLongEnough s.config u
      × ((s'.pending_endpoint ≡ some u) ⊎ ((s'.recording ≡ false) × (s'.pending_endpoint ≡ none)))
  Explains s (some resumed) s' =
      (is_some s.pending_endpoint ≡ true) × (s'.pending_endpoint ≡ none) × (s'.recording ≡ true)
  Explains s (some (confirmed held)) s' =
      (held ≡ s.pending_endpoint)
      × (is_some held ≡ true)
      × (s'.pending_endpoint ≡ none)
      × (s'.recording ≡ false)

  pub build_lem :
      (s : Segmenter Sample F D) (forced_end : Bool) (u : DetectedUtterance Sample)
      → build_utterance s forced_end ≡ some u
      → IsLongEnough s.config u × (u.samples ≡ concat s.frames)
  unfolding build_utterance
  build_lem s forced_end u built = ground arith

  pub build_none :
      (s : Segmenter Sample F D) (forced_end : Bool)
      → build_utterance s forced_end ≡ none
      → length (concat s.frames) * 1000 < s.config.min_utterance_ms * s.config.sample_rate
  unfolding build_utterance
  build_none s forced_end short = ground arith

  -- A held endpoint is as long as `_build_utterance` asks, so a later one is too.
  pub no_short_end :
      (s : Segmenter Sample F D) (forced_end : Bool)
      → ((u : DetectedUtterance Sample)
          → s.pending_endpoint ≡ some u
          → IsLongEnough s.config u × (length u.samples ≤ total_length s.frames))
      → build_utterance s forced_end ≡ none
      → s.pending_endpoint ≡ none
  no_short_end s forced_end held short = elim (Option-cases s.pending_endpoint) [
    | inl e ↦ e
    | inr (u, e) ↦
        absurd (omega (arith, held u e, build_none s forced_end short, length-concat s.frames))
  ]

  pub endpoint_of_lem :
      (s : Segmenter Sample F D) (o : Option (DetectedUtterance Sample)) (to_reset : Bool)
      → 0 < s.chunk_samples
      → length s.pre_roll ≤ s.pre_roll_limit
      → s.recording_samples ≡ total_length s.frames
      → s.recording ≡ true
      → (to_reset ≡ false → is_some s.pending_end_samples ≡ true)
      → ((u : DetectedUtterance Sample)
          → o ≡ some u
          → IsLongEnough s.config u × (length u.samples ≤ total_length s.frames))
      → (o ≡ none → s.pending_endpoint ≡ none)
      → let (s', event) = endpoint_of s o to_reset in IsValid s' × Explains s event s'
  unfolding endpoint_of
  endpoint_of_lem s none to_reset pos fits counted rec ended long short =
      (reset-IsValid s pos, unfold reset in sym (short refl))
  endpoint_of_lem s (some u) true pos fits counted rec ended long short =
      (reset-IsValid s pos, ((long u refl).0, inr (unfold reset in (refl, refl))))
  endpoint_of_lem s (some u) false pos fits counted rec ended long short = (
    record {
      chunk_pos = pos;
      pre_roll_fits = fits;
      counted = counted;
      idle_endpoint = λ e. cc;
      paired = ended refl;
      held = long;
    },
    ((long u refl).0, inl refl),
  )

  pub endpoint_lem :
      (s : Segmenter Sample F D) (forced_end to_reset : Bool)
      → 0 < s.chunk_samples
      → length s.pre_roll ≤ s.pre_roll_limit
      → s.recording_samples ≡ total_length s.frames
      → s.recording ≡ true
      → (to_reset ≡ false → is_some s.pending_end_samples ≡ true)
      → ((u : DetectedUtterance Sample)
          → s.pending_endpoint ≡ some u
          → IsLongEnough s.config u × (length u.samples ≤ total_length s.frames))
      → let (s', event) = endpoint_event s forced_end to_reset in IsValid s' × Explains s event s'
  unfolding endpoint_event
  endpoint_lem s forced_end to_reset pos fits counted rec ended held =
      endpoint_of_lem s (build_utterance s forced_end) to_reset pos fits counted rec ended
        (λ u built.
          let (long, all) = build_lem s forced_end u built in
          (long, omega (arith, ap length all, length-concat s.frames)))
        (no_short_end s forced_end held)

  pub silence_lem :
      (s : Segmenter Sample F D) (silence : Option ℕ) (frame : List Sample)
      → IsValid s
      → s.pending_end_samples ≡ silence
      → let (s', event) = count_silence s silence frame in IsValid s' × Explains s event s'
  unfolding count_silence
  silence_lem s none frame v e = (v, refl)
  silence_lem s (some n) frame v e =
      elim (Bool-cases (ltb (n + length frame) s.final_silence_samples)) [
        | inl more ↦ rw more (
          record {
            chunk_pos = v.chunk_pos;
            pre_roll_fits = v.pre_roll_fits;
            counted = v.counted;
            idle_endpoint = v.idle_endpoint;
            paired = cc (e, v.paired);
            held = v.held;
          },
          refl,
        )
        | inr enough ↦
            rw enough
              (reset-IsValid s v.chunk_pos, unfold reset in (refl, cc (e, v.paired), refl, refl))
      ]

  pub speech_lem :
      (s : Segmenter Sample F D)
      → IsValid s
      → s.recording ≡ true
      → let s' = record s { pending_end_samples = none; pending_endpoint = none } in
        IsValid s' × Explains s (if is_some s.pending_end_samples then some resumed else none) s'
  speech_lem s v rec = (
    record {
      chunk_pos = v.chunk_pos;
      pre_roll_fits = v.pre_roll_fits;
      counted = v.counted;
      idle_endpoint = λ _. refl;
      paired = refl;
      held = λ u e. cc;
    },
    if_ind
        (λ event.
          Explains s event (record s { pending_end_samples = none; pending_endpoint = none }))
        (is_some s.pending_end_samples) (some resumed) none (λ e. (sym v.paired ∙ e, refl, rec))
        (λ e. sym (is_none s.pending_endpoint (sym v.paired ∙ e))),
  )

  pub decision_lem :
      (s : Segmenter Sample F D) (decision : VoiceActivityDecision F) (forced_end : Bool)
      (frame : List Sample)
      → IsValid s
      → s.recording ≡ true
      → let (s', event) = after_decision s decision forced_end frame in
        IsValid s' × Explains s event s'
  unfolding after_decision
  decision_lem s decision true frame v rec =
      endpoint_lem s true true v.chunk_pos v.pre_roll_fits v.counted rec (λ e. cc) v.held
  decision_lem s decision false frame v rec =
      elim (Bool-cases (decision.started || decision.is_speech)) [
        | inl speech ↦ rw speech (speech_lem s v rec)
        | inr quiet ↦ rw quiet (elim (Bool-cases decision.ended) [
          | inl ended ↦ rw ended (
              endpoint_lem (record s { pending_end_samples = some 0 }) false
                (s.final_silence_samples == 0) v.chunk_pos v.pre_roll_fits v.counted rec (λ e. refl)
                v.held)
          | inr silent ↦ rw silent (silence_lem s s.pending_end_samples frame v refl)
        ])
      ]
