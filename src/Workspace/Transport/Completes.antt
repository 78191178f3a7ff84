-- ===== src/Workspace/Transport/Completes.antt =====
-- A stream that keeps moving delivers the frame.
use reframe_web.Prelude.{
  ℕ, zero, suc, ◌+◌, ◌-◌, ◌≤◌, ◌<◌, min, ◌≡◌, refl, ap, sym, ◌∙◌, true, false, some, List, [], ◌∷◌,
  ◌++◌, if_ind, length, take, drop, is_nil, append-nil, append_assoc, length-drop, length-take,
  length-append, All, arith,
}
use reframe_web.Workspace.Transport.{
  Answer, bytes, nothing, os_error, Result, ok, err, Codec, pack, encode_frame, Incoming, read_loop,
  read_exact, decode, read_body, read_length, read_header, read_frame, max_frame_bytes,
  stream_closed,
}
use reframe_web.Workspace.Transport.Writes.{Moves}
use reframe_web.Workspace.Transport.Frames.{
  take-split, drop-split, unpack-pack, take-length, drop-length, encode_frame-ok,
}

is_nil-take : (n : ℕ) (bs : List ℕ) → 0 < n → 0 < length bs → is_nil (take n bs) ≡ false
is_nil-take zero bs h k = absurd (omega arith)
is_nil-take (suc n) [] h k = absurd (omega arith)
is_nil-take (suc n) (b ∷ bs) h k = refl

read_loop_completes :
    (left : ℕ) (value bs : List ℕ) (answers : List Answer)
    → All Moves answers
    → left ≤ length bs
    → left ≤ length answers
    → (answers' : List Answer) × (read_loop left value bs answers
        ≡ (record { data_left = drop left bs; answers = answers' }, ok (value ++ take left bs)))
      × All Moves answers'
      × (length answers ≤ left + length answers')
unfolding read_loop
read_loop_completes zero value bs answers moves h k = (
  answers,
  ap (λ v. (record { data_left = bs; answers = answers }, ok v)) (sym (append-nil value)),
  moves,
  omega arith,
)
read_loop_completes (suc left) value bs [] moves h k = absurd (omega arith)
read_loop_completes (suc left) value bs (os_error ∷ answers) (none_moved, _) h k = absurd none_moved
read_loop_completes (suc left) value bs (nothing ∷ answers) (none_moved, _) h k = absurd none_moved
read_loop_completes (suc left) value bs (bytes zero ∷ answers) (none_moved, _) h k =
    absurd none_moved
read_loop_completes (suc left) value bs (bytes (suc n) ∷ answers) (_, moves) h k =
    let m : ℕ = min (suc n) (suc left) in
    let chunk : List ℕ = take m bs in
    let (answers', e, moves', enough) =
      read_loop_completes (suc left - length chunk) (value ++ chunk) (drop m bs) answers moves
        (omega (arith, length-take m bs, length-drop m bs)) (omega (arith, length-take m bs)) in
    (
      answers',
      if_ind
          (λ (r : Incoming × Result (List ℕ)). r ≡ (
            record { data_left = drop (suc left) bs; answers = answers' },
            ok (value ++ take (suc left) bs),
          ))
          (is_nil chunk) (record { data_left = bs; answers = answers }, err stream_closed)
          (read_loop (suc left - length chunk) (value ++ chunk) (drop m bs) answers)
          (λ empty. absurd (cc (empty, is_nil-take m bs (omega arith) (omega arith))))
          (λ _.
            e
            ∙ ap
                (λ v. (
                  record {
                    data_left = drop (suc left - length chunk) (drop m bs);
                    answers = answers';
                  },
                  ok v,
                ))
                (append_assoc value chunk (take (suc left - length chunk) (drop m bs))
                  ∙ ap (◌++◌ value) (sym (take-split (suc left) m bs (omega arith))))
            ∙ ap
                (λ d.
                  (record { data_left = d; answers = answers' }, ok (value ++ take (suc left) bs)))
                (sym (drop-split (suc left) m bs (omega arith)))),
      moves',
      omega (arith, enough, length-take m bs),
    )

read_exact_completes :
    (n : ℕ) (x rest : List ℕ) (answers : List Answer)
    → length x ≡ n
    → All Moves answers
    → n ≤ length answers
    → (answers' : List Answer) × (read_exact (record { data_left = x ++ rest; answers = answers }) n
        ≡ (record { data_left = rest; answers = answers' }, ok x))
      × All Moves answers'
      × (length answers ≤ n + length answers')
unfolding read_exact
read_exact_completes n x rest answers e moves enough =
    let (answers', f, moves', left) =
      read_loop_completes n [] (x ++ rest) answers moves (omega (arith, e, length-append x rest))
        enough in
    let taken : take n (x ++ rest) ≡ x =
      ap (λ i. take i (x ++ rest)) (sym e) ∙ take-length x rest in
    let dropped : drop n (x ++ rest) ≡ rest =
      ap (λ i. drop i (x ++ rest)) (sym e) ∙ drop-length x rest in
    (answers', cc (f, taken, dropped), moves', left)

module _ {Json : Type 0} (codec : Codec Json) where
  decode_lem :
      (payload : Json) (d : List ℕ)
      → codec.loads d ≡ some payload
      → codec.is_object payload ≡ true
      → decode codec d ≡ ok payload
  unfolding decode
  decode_lem payload d e f = cc (e, f)

  read_length_lem :
      (s : Incoming) (n : ℕ)
      → n ≤ max_frame_bytes
      → read_length codec s (some n) ≡ read_body codec (read_exact s n)
  unfolding read_length
  read_length_lem s n h = ground arith

  -- A frame that `encode_frame` made for an object, with anything behind it, on a stream whose every
  -- read gives at least one byte: `read_frame` returns the payload, within as many reads as there are
  -- bytes. The codec has to read back what it wrote.
  pub read_frame_completes :
      (payload : Json) (frame rest : List ℕ) (answers : List Answer)
      → codec.loads (codec.dumps payload) ≡ some payload
      → codec.is_object payload ≡ true
      → encode_frame codec payload ≡ ok frame
      → All Moves answers
      → length frame ≤ length answers
      → (read_frame codec (record { data_left = frame ++ rest; answers = answers })).1 ≡ ok payload
  unfolding read_frame read_header read_body pack
  read_frame_completes payload frame rest answers law object made moves enough =
      let d : List ℕ = codec.dumps payload in
      let (small, shape) = encode_frame-ok codec payload frame made in
      let whole : frame ++ rest ≡ pack (length d) ++ (d ++ rest) =
        ap (λ x. x ++ rest) shape ∙ append_assoc (pack (length d)) d rest in
      let size : length frame ≡ 4 + length d =
        ap length shape ∙ length-append (pack (length d)) d in
      let (a1, e1, m1, n1) =
        read_exact_completes 4 (pack (length d)) (d ++ rest) answers (omega arith) moves
          (omega (arith, size)) in
      let (a2, e2, m2, n2) =
        read_exact_completes (length d) d rest a1 refl m1 (omega (arith, size, n1)) in
      let s1 : Incoming = record { data_left = d ++ rest; answers = a1 } in
      ap (λ x. (read_header codec (read_exact (record { data_left = x; answers = answers }) 4)).1)
        whole
      ∙ ap (λ r. (read_header codec r).1) e1
      ∙ ap (λ n. (read_length codec s1 n).1) (unpack-pack (length d) (omega (arith, small)))
      ∙ ap (λ r. r.1) (read_length_lem s1 (length d) small)
      ∙ ap (λ r. (read_body codec r).1) e2
      ∙ decode_lem payload d law object
