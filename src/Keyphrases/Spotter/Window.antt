-- ===== src/Keyphrases/Spotter/Window.antt =====
-- The spotter's buffer is the end of what it has heard.
use reframe_web.Prelude.{
  ℕ, zero, suc, ◌+◌, ◌-◌, ◌≤◌, min, ◌≡◌, refl, ap, sym, subst, ◌∙◌, false, List, [], ◌∷◌, ◌++◌, leb,
  leb→le, le→leb, if_ind, length, drop, concat, total_length, length-append, length-drop,
  concat-append, total_length-append, append_assoc, append-nil, drop-append_le, drop-drop, arith,
}
use reframe_web.Keyphrases.Spotter.{trim_front, Buffer, create_buffer, append_frame}

module _ {Sample : Type 0} where
  pub drop-past : (xs ys : List Sample) (n : ℕ) → drop (length xs + n) (xs ++ ys) ≡ drop n ys
  drop-past [] ys n = ap (λ i. drop i ys) (omega arith)
  drop-past (x ∷ xs) ys n =
      let e : suc (length xs) + n ≡ suc (length xs + n) = omega arith in
      ap (λ i. drop i (x ∷ xs ++ ys)) e ∙ drop-past xs ys n

  -- A drop that reaches past the first frame.
  pub drop-frame :
      (xs ys : List Sample) (n : ℕ) → length xs ≤ n → drop n (xs ++ ys) ≡ drop (n - length xs) ys
  drop-frame xs ys n h = ap (λ i. drop i (xs ++ ys)) (omega arith) ∙ drop-past xs ys (n - length xs)

  longer_lem :
      (frame : List Sample) (extra : ℕ)
      → leb (length frame) (suc extra) ≡ false
      → suc extra ≤ length frame
  longer_lem frame extra e = ground (arith, le→leb (length frame) (suc extra))

  trim_front_lem :
      (extra : ℕ) (frames : List (List Sample))
      → (concat (trim_front extra frames).0 ≡ drop (trim_front extra frames).1 (concat frames))
        × ((trim_front extra frames).1 ≡ min extra (total_length frames))
        × (total_length (trim_front extra frames).0 + (trim_front extra frames).1
            ≡ total_length frames)
  unfolding trim_front
  trim_front_lem zero frames = (refl, omega arith, omega arith)
  trim_front_lem (suc extra) [] = (refl, omega arith, omega arith)
  trim_front_lem (suc extra) (frame ∷ frames) =
      let r : List (List Sample) × ℕ = trim_front (suc extra - length frame) frames in
      let (e, n, t) = trim_front_lem (suc extra - length frame) frames in
      if_ind
        (λ (x : List (List Sample) × ℕ).
          (concat x.0 ≡ drop x.1 (frame ++ concat frames))
          × (x.1 ≡ min (suc extra) (length frame + total_length frames))
          × (total_length x.0 + x.1 ≡ length frame + total_length frames))
        (leb (length frame) (suc extra)) (r.0, length frame + r.1)
        (drop (suc extra) frame ∷ frames, suc extra)
        (λ whole. (
          e ∙ sym (drop-past frame (concat frames) r.1),
          omega (arith, n, leb→le (length frame) (suc extra) whole),
          omega (arith, t),
        ))
        (λ part. (
          sym (drop-append_le (suc extra) frame (concat frames) (longer_lem frame extra part)),
          omega (arith, longer_lem frame extra part),
          omega (arith, longer_lem frame extra part, length-drop (suc extra) frame),
        ))

  -- What a spotter that has heard some audio keeps of it: the last samples, up to its maximum.
  pub record IsWindow (heard : List Sample) (b : Buffer Sample) : Type 0 where
    pub held : concat b.frames ≡ drop b.buffer_start_sample heard
    pub size : b.buffer_samples ≡ total_length b.frames
    pub processed : b.processed_samples ≡ length heard
    pub place : b.buffer_start_sample + b.buffer_samples ≡ length heard
    pub full : b.buffer_samples ≡ min b.max_buffer_samples (length heard)

  pub create_buffer-IsWindow : (max_buffer_ms : ℕ) → IsWindow [] (create_buffer max_buffer_ms)
  unfolding create_buffer
  create_buffer-IsWindow max_buffer_ms = record {
    held = refl;
    size = refl;
    processed = refl;
    place = omega arith;
    full = omega arith;
  }

  append_frame-IsWindow :
      (heard frame : List Sample) (b : Buffer Sample)
      → IsWindow heard b
      → IsWindow (heard ++ frame) (append_frame b frame)
  unfolding append_frame
  append_frame-IsWindow heard frame b v =
      let frames : List (List Sample) = b.frames ++ frame ∷ [] in
      let extra : ℕ = b.buffer_samples + length frame - b.max_buffer_samples in
      let r : List (List Sample) × ℕ = trim_front extra frames in
      let (e, n, t) = trim_front_lem extra frames in
      let all : total_length frames ≡ b.buffer_samples + length frame =
        omega (arith, v.size, total_length-append b.frames (frame ∷ [])) in
      let joined : concat frames ≡ drop b.buffer_start_sample (heard ++ frame) =
        concat-append b.frames (frame ∷ [])
        ∙ ap (λ x. concat b.frames ++ x) (append-nil frame)
        ∙ ap (λ x. x ++ frame) v.held
        ∙ sym (drop-append_le b.buffer_start_sample heard frame (omega (arith, v.place))) in
      record {
        held = e ∙ ap (drop r.1) joined ∙ drop-drop r.1 b.buffer_start_sample (heard ++ frame);
        size = omega (arith, t, all);
        processed = omega (arith, v.processed, length-append heard frame);
        place = omega (arith, v.place, length-append heard frame, n, all);
        full = omega (arith, v.full, n, all, v.place, length-append heard frame);
      }

  abbrev pub append_all : Buffer Sample → List (List Sample) → Buffer Sample
  append_all b [] = b
  append_all b (frame ∷ frames) = append_all (append_frame b frame) frames

  pub append_all-IsWindow :
      (heard : List Sample) (frames : List (List Sample)) (b : Buffer Sample)
      → IsWindow heard b
      → IsWindow (heard ++ concat frames) (append_all b frames)
  append_all-IsWindow heard [] b v = subst (λ x. IsWindow x b) (sym (append-nil heard)) v
  append_all-IsWindow heard (frame ∷ frames) b v =
      subst (λ x. IsWindow x (append_all (append_frame b frame) frames))
        (append_assoc heard frame (concat frames))
        (append_all-IsWindow (heard ++ frame) frames (append_frame b frame)
          (append_frame-IsWindow heard frame b v))

  -- However the audio comes in frames: the buffer is the last part of all that was heard, as much as
  -- it may hold, and `_buffer_start_sample` says where that part begins.
  pub buffer-IsWindow :
      (max_buffer_ms : ℕ) (frames : List (List Sample))
      → let b : Buffer Sample = append_all (create_buffer max_buffer_ms) frames in
        IsWindow (concat frames) b
        × (concat b.frames ≡ drop (length (concat frames) - b.max_buffer_samples) (concat frames))
  buffer-IsWindow max_buffer_ms frames =
      let b : Buffer Sample = append_all (create_buffer max_buffer_ms) frames in
      let v : IsWindow (concat frames) b =
        append_all-IsWindow [] frames (create_buffer max_buffer_ms)
          (create_buffer-IsWindow max_buffer_ms) in
      (v, v.held ∙ ap (λ i. drop i (concat frames)) (omega (arith, v.place, v.full)))
