-- ===== src/Voice/BargeIn/Once.antt =====
-- A detector interrupts once for each time that it hears a voice.
use reframe_web.Prelude.{
  ℕ, ◌+◌, ◌≤◌, ◌≡◌, refl, ap, Bool, true, false, not, ◌&&◌, ◌||◌, leb, Option, none, some, List, [],
  ◌∷◌, is_nil, concat, if_ind, arith,
}
use reframe_web.Voice.Vad.{VoiceActivityDecision}
use reframe_web.Voice.BargeIn
use reframe_web.Voice.BargeIn.{
  BargeIn, BargeInCalls, is_voice, reset, append_voice_frame, detector_or, get_detector,
  accept_voice, accept_decision, accept_detected,
}

abbrev pub one_if : Bool → ℕ
one_if true = 1
one_if false = 0

fresh_lem : (a b : Bool) → (not a && b) ≡ true → one_if a ≡ 0
fresh_lem true b e = absurd (cc e)
fresh_lem false b e = refl

module _ {Sample F D : Type 0} (calls : BargeInCalls Sample F D) where
  -- The frames at which the detector interrupts, each with whether speech is played
  unfoldable pub interruptions : BargeIn Sample D → List (List Sample × Bool) → ℕ
  interruptions b [] = 0
  interruptions b ((frame, active) ∷ frames) =
      let (b', interrupts) = BargeIn.accept calls b frame active in
      one_if interrupts + interruptions b' frames

  -- The frames after which it holds no voice
  unfoldable pub silences : BargeIn Sample D → List (List Sample × Bool) → ℕ
  silences b [] = 0
  silences b ((frame, active) ∷ frames) =
      let (b', interrupts) = BargeIn.accept calls b frame active in
      one_if (is_nil b'.voice_frames) + silences b' frames

  -- An interruption sets the flag, which only a silence clears.
  abbrev Moves : BargeIn Sample D → BargeIn Sample D × Bool → Type 0
  Moves b (b', interrupts) =
      one_if interrupts + one_if b.triggered ≤ one_if b'.triggered + one_if (is_nil b'.voice_frames)

  stay_lem : (b b' : BargeIn Sample D) → b'.triggered ≡ b.triggered → Moves b (b', false)
  stay_lem b b' e = let q = ap one_if e in omega (arith, q)

  flag_lem : (x : Bool) → one_if x ≤ 1
  flag_lem true = omega arith
  flag_lem false = omega arith

  reset_lem : (b b' : BargeIn Sample D) → Moves b (reset b', false)
  unfolding reset
  reset_lem b b' = let q = flag_lem b.triggered in omega (arith, q)

  voice_lem : (b : BargeIn Sample D) (frame : List Sample) → Moves b (accept_voice calls b frame)
  unfolding accept_voice append_voice_frame
  voice_lem b frame =
      let b' : BargeIn Sample D = append_voice_frame b frame in
      let enough : Bool =
        leb b'.required_samples b'.voice_samples
        && calls.looks_like_human_speech (concat b'.voice_frames) in
      if_ind (Moves b) (not b.triggered && enough) (record b' { triggered = true }, true)
        (b', false) (λ e. let q = fresh_lem b.triggered enough e in omega (arith, q))
        (λ _. stay_lem b b' refl)

  decision_lem :
      (b : BargeIn Sample D) (frame : List Sample) (decision : VoiceActivityDecision F)
      → Moves b (accept_decision calls b frame decision)
  unfolding accept_decision
  decision_lem b frame decision =
      if_ind (Moves b) (is_voice decision) _ _
        (λ _.
          if_ind (Moves b) (calls.looks_like_reference_audio frame) (reset b, false)
            (accept_voice calls b frame) (λ _. reset_lem b b) (λ _. voice_lem b frame))
        (λ _.
          if_ind (Moves b) (decision.ended || not decision.is_speech) (reset b, false) (b, false)
            (λ _. reset_lem b b) (λ _. stay_lem b b refl))

  detected_lem :
      (b : BargeIn Sample D) (frame : List Sample) (x : BargeIn Sample D × Option D)
      → x.0.triggered ≡ b.triggered
      → Moves b (accept_detected calls frame x)
  unfolding accept_detected
  detected_lem b frame (b1, none) e = stay_lem b b1 e
  detected_lem b frame (b1, some d) e =
      let b2 : BargeIn Sample D = record b1 { detector = some (calls.detect d frame).0 } in
      let h : Moves b2 (accept_decision calls b2 frame (calls.detect d frame).1) =
        decision_lem b2 frame (calls.detect d frame).1 in
      let q = ap one_if e in omega (arith, h, q)

  detector_or_lem :
      (b : BargeIn Sample D) (o made : Option D)
      → (detector_or calls b o made).0.triggered ≡ b.triggered
  unfolding detector_or
  detector_or_lem b (some d) made = refl
  detector_or_lem b none (some d) = refl
  detector_or_lem b none none = refl

  get_lem : (b : BargeIn Sample D) → (get_detector calls b).0.triggered ≡ b.triggered
  unfolding get_detector
  get_lem b = detector_or_lem b b.detector calls.make_detector

  accept_lem :
      (b : BargeIn Sample D) (frame : List Sample) (active : Bool)
      → Moves b (BargeIn.accept calls b frame active)
  unfolding BargeIn.accept
  accept_lem b frame active =
      if_ind (Moves b) (not active) (reset b, false) _ (λ _. reset_lem b b)
        (λ _.
          if_ind (Moves b) b.disabled (b, false)
            (accept_detected calls frame (get_detector calls b)) (λ _. stay_lem b b refl)
            (λ _. detected_lem b frame (get_detector calls b) (get_lem b)))

  credit_lem :
      (b : BargeIn Sample D) (frames : List (List Sample × Bool))
      → interruptions b frames + one_if b.triggered ≤ silences b frames + 1
  unfolding interruptions silences
  credit_lem b [] = let q = flag_lem b.triggered in omega (arith, q)
  credit_lem b ((frame, active) ∷ frames) =
      let b' : BargeIn Sample D = (BargeIn.accept calls b frame active).0 in
      let h = accept_lem b frame active in let ih = credit_lem b' frames in omega (arith, h, ih)

  -- Whatever a detector hears, it interrupts at most once more than there are frames after which it
  -- holds no voice: between two interruptions it has lost the voice.
  pub interrupts_once :
      (b : BargeIn Sample D) (frames : List (List Sample × Bool))
      → interruptions b frames ≤ silences b frames + 1
  interrupts_once b frames = let h = credit_lem b frames in omega (arith, h)
