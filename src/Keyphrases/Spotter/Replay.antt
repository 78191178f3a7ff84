-- ===== src/Keyphrases/Spotter/Replay.antt =====
-- What the gate replays of a detection, in terms of the audio that was heard.
use reframe_web.Prelude.{
  ℕ, zero, suc, ◌+◌, ◌-◌, ◌*◌, ◌≤◌, max, ◌≡◌, refl, ap, sym, ◌∙◌, false, none, some, List, [], ◌∷◌,
  ◌++◌, leb, leb→le, le→leb, if_ind, length, take, drop, concat, drop-append_le, drop-drop,
  drop-nil, or_else, arith,
}
use reframe_web.Voice.Capture.{KeyphraseDetection}
use reframe_web.Keyphrases.Spotter.{
  trim_from, trim_loop, trim_between, Buffer, replay_frames, confirmation_frames,
  confirmation_start,
}
use reframe_web.Keyphrases.Spotter.Window.{IsWindow, drop-frame}

module _ {Sample : Type 0} where
  within_lem : (frame : List Sample) (n : ℕ) → leb (length frame) n ≡ false → n ≤ length frame
  within_lem frame n e = ground (arith, le→leb (length frame) n)

  -- `trim_frames_from_sample` is a slice of the joined audio.
  trim_from_lem :
      (frames : List (List Sample)) (skip : ℕ)
      → concat (trim_from frames skip) ≡ drop skip (concat frames)
  unfolding trim_from
  trim_from_lem [] skip = sym (drop-nil skip)
  trim_from_lem (frame ∷ frames) skip =
      if_ind (λ x. concat x ≡ drop skip (frame ++ concat frames)) (leb (length frame) skip)
        (trim_from frames (skip - length frame)) (drop skip frame ∷ trim_from frames 0)
        (λ past.
          trim_from_lem frames (skip - length frame)
          ∙ sym (drop-frame frame (concat frames) skip (leb→le (length frame) skip past)))
        (λ within.
          ap (◌++◌ (drop skip frame)) (trim_from_lem frames 0)
          ∙ sym (drop-append_le skip frame (concat frames) (within_lem frame skip within)))

  take-nil : (n : ℕ) → take {A = Sample} n [] ≡ []
  take-nil zero = refl
  take-nil (suc n) = refl

  take-part :
      (n : ℕ) (xs ys : List Sample)
      → take n (xs ++ ys) ≡ take n xs ++ take (n - length (take n xs)) ys
  take-part zero xs ys = refl
  take-part (suc n) [] ys = let e : suc n ≡ suc n - 0 = omega arith in ap (λ i. take i ys) e
  take-part (suc n) (x ∷ xs) ys =
      let e : n - length (take n xs) ≡ suc n - suc (length (take n xs)) = omega arith in
      ap (◌∷◌ x) (take-part n xs ys ∙ ap (λ i. take n xs ++ take i ys) e)

  trim_loop_lem :
      (frames : List (List Sample)) (skip left : ℕ)
      → concat (trim_loop frames skip left) ≡ take left (drop skip (concat frames))
  unfolding trim_loop
  trim_loop_lem [] skip left = sym (ap (take left) (drop-nil skip) ∙ take-nil left)
  trim_loop_lem (frame ∷ frames) skip zero = refl
  trim_loop_lem (frame ∷ frames) skip (suc left) =
      let part : List Sample = take (suc left) (drop skip frame) in
      if_ind (λ x. concat x ≡ take (suc left) (drop skip (frame ++ concat frames)))
        (leb (length frame) skip) (trim_loop frames (skip - length frame) (suc left))
        (part ∷ trim_loop frames 0 (suc left - length part))
        (λ past.
          trim_loop_lem frames (skip - length frame) (suc left)
          ∙ ap (take (suc left))
              (sym (drop-frame frame (concat frames) skip (leb→le (length frame) skip past))))
        (λ within.
          ap (◌++◌ part) (trim_loop_lem frames 0 (suc left - length part))
          ∙ sym (take-part (suc left) (drop skip frame) (concat frames))
          ∙ ap (take (suc left))
              (sym (drop-append_le skip frame (concat frames) (within_lem frame skip within))))

  trim_between_lem :
      (frames : List (List Sample)) (start stop : ℕ)
      → concat (trim_between frames start stop) ≡ take (stop - start) (drop start (concat frames))
  unfolding trim_between
  trim_between_lem frames start stop =
      if_ind (λ x. concat x ≡ take (stop - start) (drop start (concat frames))) (leb stop start) []
        (trim_loop frames start (stop - start))
        (λ empty.
          let none_left : stop - start ≡ 0 = omega (arith, leb→le stop start empty) in
          sym (ap (λ i. take i (drop start (concat frames))) none_left))
        (λ _. trim_loop_lem frames start (stop - start))

  -- A spotter that has heard `heard`: what it replays for a phrase that ends, or else starts, at a
  -- sample of its buffer is all that was heard from `pre_roll_ms` before that sample on.
  pub replay_frames_audio :
      (heard : List Sample) (b : Buffer Sample) (detection : KeyphraseDetection) (boundary pre : ℕ)
      → IsWindow heard b
      → or_else detection.phrase_end_sample detection.phrase_start_sample ≡ some boundary
      → concat (replay_frames b detection pre)
        ≡ drop (b.buffer_start_sample + (boundary - 16 * pre)) heard
  unfolding replay_frames
  replay_frames_audio heard b detection boundary pre v e =
      ap
        (λ o. concat (elim o [
          | none ↦ b.frames
          | some boundary_sample ↦ trim_from b.frames (boundary_sample - 16 * pre)
        ]))
        e
      ∙ trim_from_lem b.frames (boundary - 16 * pre)
      ∙ ap (drop (boundary - 16 * pre)) v.held
      ∙ drop-drop (boundary - 16 * pre) b.buffer_start_sample heard

  -- What it hands over to confirm a phrase is the end of the phrase, at most `window_ms` of it.
  pub confirmation_frames_audio :
      (heard : List Sample) (b : Buffer Sample) (detection : KeyphraseDetection)
      (phrase_start phrase_end window_ms : ℕ)
      → IsWindow heard b
      → detection.phrase_start_sample ≡ some phrase_start
      → detection.phrase_end_sample ≡ some phrase_end
      → let stop : ℕ = max phrase_start phrase_end in
        let start : ℕ = confirmation_start phrase_start stop window_ms in
        (concat (confirmation_frames b detection window_ms)
          ≡ take (stop - start) (drop (b.buffer_start_sample + start) heard))
        × (stop - start ≤ max 1 (16 * window_ms))
        × (phrase_start ≤ start)
  unfolding confirmation_frames
  confirmation_frames_audio heard b detection phrase_start phrase_end window_ms v e f =
      let stop : ℕ = max phrase_start phrase_end in
      let start : ℕ = confirmation_start phrase_start stop window_ms in
      (
        ap
              (λ o. concat (elim o [
                | none ↦ b.frames
                | some first ↦ elim detection.phrase_end_sample [
                  | none ↦ b.frames
                  | some last ↦
                      trim_between b.frames (confirmation_start first (max first last) window_ms)
                        (max first last)
                ]
              ]))
              e
            ∙ ap
                (λ o. concat (elim o [
                  | none ↦ b.frames
                  | some last ↦
                      trim_between b.frames
                        (confirmation_start phrase_start (max phrase_start last) window_ms)
                        (max phrase_start last)
                ]))
                f
            ∙ trim_between_lem b.frames start stop
            ∙ ap (λ x. take (stop - start) (drop start x)) v.held
            ∙ ap (take (stop - start)) (drop-drop start b.buffer_start_sample heard),
        omega arith,
        omega arith,
      )
