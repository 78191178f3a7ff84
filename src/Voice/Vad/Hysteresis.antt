-- ===== src/Voice/Vad/Hysteresis.antt =====
-- When the energy detector of vad_energy.py starts and ends speech.
use reframe_web.Prelude.{
  All, ℕ, ◌+◌, ◌≤◌, ◌<◌, ◌≡◌, refl, ◌∙◌, ap, Bool, true, false, not, inl, inr, List, [], ◌∷◌, ◌++◌,
  arith, length, Bool-cases, ltb, leb, if◌then◌else◌, ◌||◌, leb→le, sym, subst,
}
use reframe_web.Voice.Vad.{FloatOps, VoiceActivityConfig, EnergyDetector, accept_energy}

module _ (ops : FloatOps) where
  open ops use {Float, le, rms}

  -- A decision starts speech only from silence and ends it only from speech, and `is_speech` is
  -- the state after the frame.
  pub accept_energy_edges :
      (d : EnergyDetector Float) (frame : List Float)
      → let (d', decision) = accept_energy ops d frame in
        (decision.is_speech ≡ d'.in_speech)
        × (decision.started ≡ (if d.in_speech then false else d'.in_speech))
        × (decision.ended ≡ (if d.in_speech then not d'.in_speech else false))
  unfolding accept_energy
  accept_energy_edges d frame = ground arith

-- The number of frames at the end of a list that pass a test, `c` of them before its first.
run_length {ℓ} : {A : Type ℓ} → (A → Bool) → ℕ → List A → ℕ
run_length p c [] = c
run_length p c (x ∷ xs) = run_length p (if p x then c + 1 else 0) xs

module _ {ℓ} {A : Type ℓ} (p : A → Bool) where
  run_length-le : (c : ℕ) (xs : List A) → run_length p c xs ≤ c + length xs
  unfolding run_length
  run_length-le c [] = omega arith
  run_length-le c (x ∷ xs) = ground (arith, run_length-le (c + 1) xs, run_length-le 0 xs)

  run_length_full : (c : ℕ) (xs : List A) → length xs < run_length p c xs → All (λ x. p x ≡ true) xs
  unfolding run_length
  run_length_full c [] e = tt
  run_length_full c (x ∷ xs) e = elim (Bool-cases (p x)) [
    | inl loud ↦ (loud, run_length_full (c + 1) xs (ground arith))
    | inr quiet ↦ absurd (ground (arith, run_length-le 0 xs))
  ]

  -- The last `n` elements pass, where the run is that long and began within the list.
  run_length_sound :
      (n c : ℕ) (xs : List A)
      → n ≤ run_length p c xs
      → n ≤ length xs
      → (a : List A) × (b : List A) × (xs ≡ a ++ b) × (length b ≡ n) × All (λ x. p x ≡ true) b
  unfolding run_length
  run_length_sound n c [] h k = ([], [], refl, omega arith, tt)
  run_length_sound n c (x ∷ xs) h k = elim (Bool-cases (ltb (length xs) n)) [
    | inr shorter ↦
        let (a, b, e, l, all) = run_length_sound n (if p x then c + 1 else 0) xs h (ground arith) in
        (x ∷ a, b, ap (◌∷◌ x) e, l, all)
    | inl whole ↦ elim (Bool-cases (p x)) [
      | inl loud ↦
          ([], x ∷ xs, refl, ground arith, (loud, run_length_full (c + 1) xs (ground arith)))
      | inr quiet ↦ absurd (ground (arith, run_length-le 0 xs))
    ]
  ]

  run_length-snoc :
      (c : ℕ) (xs : List A) (x : A)
      → run_length p c (xs ++ x ∷ []) ≡ (if p x then run_length p c xs + 1 else 0)
  unfolding run_length
  run_length-snoc c [] x = refl
  run_length-snoc c (y ∷ xs) x = run_length-snoc (if p y then c + 1 else 0) xs x

module _ (ops : FloatOps) where
  open ops use {Float, le, rms}

  -- The detector after the frames, and whether one of them started speech.
  abbrev pub accept_all : EnergyDetector Float → List (List Float) → EnergyDetector Float
  accept_all d [] = d
  accept_all d (f ∷ fs) = accept_all (accept_energy ops d f).0 fs

  abbrev pub starts_within : EnergyDetector Float → List (List Float) → Bool
  starts_within d [] = false
  starts_within d (f ∷ fs) =
      (accept_energy ops d f).1.started || starts_within (accept_energy ops d f).0 fs

  abbrev pub is_loud : VoiceActivityConfig Float → List Float → Bool
  is_loud config f = le config.energy_start_threshold (rms f)

  -- In silence the counter is the length of the run of loud frames, and speech starts when it
  -- reaches `start_chunks`.
  idle_step :
      (d : EnergyDetector Float) (f : List Float)
      → d.in_speech ≡ false
      → let (d', decision) = accept_energy ops d f in
        (decision.started
          ≡ leb d.start_chunks (if is_loud d.config f then d.speech_chunks + 1 else 0))
        × (decision.started ≡ false
            → (d'.in_speech ≡ false)
              × (d'.speech_chunks ≡ (if is_loud d.config f then d.speech_chunks + 1 else 0)))
        × (d'.start_chunks ≡ d.start_chunks)
        × (d'.config ≡ d.config)
  unfolding accept_energy
  idle_step d f h = (ground arith, λ e. (ground arith, ground arith), ground arith, ground arith)

  -- The state of a detector that has not started within the frames.
  idle_after :
      (d : EnergyDetector Float) (fs : List (List Float))
      → d.in_speech ≡ false
      → starts_within d fs ≡ false
      → ((accept_all d fs).in_speech ≡ false)
        × ((accept_all d fs).speech_chunks ≡ run_length (is_loud d.config) d.speech_chunks fs)
        × ((accept_all d fs).start_chunks ≡ d.start_chunks)
        × ((accept_all d fs).config ≡ d.config)
  unfolding run_length accept_energy
  idle_after d [] h s = (h, refl, refl, refl)
  idle_after d (f ∷ fs) h s =
      let d' : EnergyDetector Float = (accept_energy ops d f).0 in
      let (_, keeps, chunks, config) = idle_step d f h in
      let none_now : (accept_energy ops d f).1.started ≡ false = ground arith in
      let later : starts_within d' fs ≡ false = ground arith in
      let (idle, count) = keeps none_now in
      let (a, b, c, e) = idle_after d' fs idle later in
      (a, cc (b, count, config), c ∙ chunks, e ∙ config)

  -- A detector that was silent with no loud frame counted, and that did not start within some frames,
  -- starts at the next frame only if the last `start_chunks` frames, that one included, are all loud.
  pub start_needs_run :
      (d : EnergyDetector Float) (fs : List (List Float)) (f : List Float)
      → d.in_speech ≡ false
      → d.speech_chunks ≡ 0
      → 0 < d.start_chunks
      → starts_within d fs ≡ false
      → (accept_energy ops (accept_all d fs) f).1.started ≡ true
      → (a : List (List Float)) × (b : List (List Float)) × (fs ++ f ∷ [] ≡ a ++ b)
        × (length b ≡ d.start_chunks)
        × All (λ x. is_loud d.config x ≡ true) b
  start_needs_run d fs f idle fresh pos quiet started =
      let p : List Float → Bool = is_loud d.config in
      let d1 : EnergyDetector Float = accept_all d fs in
      let (still, count, chunks, config) = idle_after d fs idle quiet in
      let (test, _, _, _) = idle_step d1 f still in
      let long : d.start_chunks ≤ run_length p 0 (fs ++ f ∷ []) =
        leb→le _ _ (cc (run_length-snoc p 0 fs f, test)) in
      run_length_sound p d.start_chunks 0 (fs ++ f ∷ []) long
        (omega (arith, long, run_length-le p 0 (fs ++ f ∷ [])))

  run_starts_from :
      (d : EnergyDetector Float) (fs : List (List Float))
      → d.in_speech ≡ false
      → 0 < length fs
      → d.start_chunks ≤ d.speech_chunks + length fs
      → All (λ x. is_loud d.config x ≡ true) fs
      → starts_within d fs ≡ true
  run_starts_from d [] idle pos long loud = absurd (omega arith)
  run_starts_from d (f ∷ fs) idle pos long loud =
      let (test, keeps, chunks, config) = idle_step d f idle in
      elim (Bool-cases (accept_energy ops d f).1.started) [
        | inl now ↦ rw now refl
        | inr later ↦
            let (still, count) = keeps later in
            rw later (
              run_starts_from (accept_energy ops d f).0 fs still (ground (arith, loud.0))
                (ground (arith, loud.0))
                (subst (λ c. All (λ x. is_loud c x ≡ true) fs) (sym config) loud.1))
      ]

  -- From silence, a run of `start_chunks` loud frames or more always starts speech.
  pub run_starts :
      (d : EnergyDetector Float) (fs : List (List Float))
      → d.in_speech ≡ false
      → 0 < length fs
      → d.start_chunks ≤ length fs
      → All (λ x. is_loud d.config x ≡ true) fs
      → starts_within d fs ≡ true
  run_starts d fs idle pos long loud = run_starts_from d fs idle pos (omega arith) loud
