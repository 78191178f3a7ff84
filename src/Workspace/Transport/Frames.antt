-- ===== src/Workspace/Transport/Frames.antt =====
-- Frames survive the stream: `read_frame` gives back what `encode_frame` made, however the stream
-- cuts it up.
use reframe_web.Prelude.{
  ℕ, zero, suc, ◌-◌, ◌≤◌, ◌<◌, min, ◌≡◌, refl, ap, sym, ◌∙◌, true, some, List, [], ◌∷◌, ◌++◌,
  if_ind, length, take, drop, is_nil, append-nil, append_assoc, drop-nil, length-drop, length-take,
  arith,
}
use reframe_web.Workspace.Transport.{
  Answer, bytes, nothing, os_error, Result, ok, err, blocked, Codec, pack, unpack, encode_frame,
  Incoming, read_loop, read_exact, decode, read_body, read_length, read_header, read_frame,
  max_frame_bytes, stream_closed,
}

pub unpack-pack : (n : ℕ) → n < 4294967296 → unpack (pack n) ≡ some n
unfolding unpack pack
unpack-pack n h = ap some (omega arith)

take-nil : {A : Type 0} (n : ℕ) → take {A = A} n [] ≡ []
take-nil zero = refl
take-nil (suc n) = refl

pub take-length : {A : Type 0} (xs ys : List A) → take (length xs) (xs ++ ys) ≡ xs
take-length [] ys = refl
take-length (x ∷ xs) ys = ap (◌∷◌ x) (take-length xs ys)

pub drop-length : {A : Type 0} (xs ys : List A) → drop (length xs) (xs ++ ys) ≡ ys
drop-length [] ys = refl
drop-length (x ∷ xs) ys = drop-length xs ys

-- A read of `m` bytes, and then of what is left of `k`.
pub take-split :
    {A : Type 0} (k m : ℕ) (xs : List A)
    → m ≤ k
    → take k xs ≡ take m xs ++ take (k - length (take m xs)) (drop m xs)
take-split k zero xs h = ap (λ n. take n xs) (omega arith)
take-split zero (suc m) xs h = absurd (omega arith)
take-split (suc k) (suc m) [] h = sym (take-nil (suc k - 0))
take-split (suc k) (suc m) (x ∷ xs) h =
    ap (◌∷◌ x)
      (take-split k m xs (omega arith) ∙ ap (λ n. take m xs ++ take n (drop m xs)) (omega arith))

pub drop-split :
    {A : Type 0} (k m : ℕ) (xs : List A)
    → m ≤ k
    → drop k xs ≡ drop (k - length (take m xs)) (drop m xs)
drop-split k zero xs h = ap (λ n. drop n xs) (omega arith)
drop-split zero (suc m) xs h = absurd (omega arith)
drop-split (suc k) (suc m) [] h = sym (drop-nil (suc k - 0))
drop-split (suc k) (suc m) (x ∷ xs) h =
    drop-split k m xs (omega arith) ∙ ap (λ n. drop n (drop m xs)) (omega arith)

-- A read that returns has taken exactly the bytes that it was asked for, in order.
read_loop_lem :
    (left : ℕ) (value bs : List ℕ) (answers : List Answer) (v : List ℕ)
    → (read_loop left value bs answers).1 ≡ ok v
    → (v ≡ value ++ take left bs)
      × ((read_loop left value bs answers).0.data_left ≡ drop left bs)
      × (left ≤ length bs)
unfolding read_loop
read_loop_lem zero value bs answers v e = (cc (e, append-nil value), refl, omega arith)
read_loop_lem (suc left) value bs [] v e = absurd cc
read_loop_lem (suc left) value bs (os_error ∷ answers) v e = absurd cc
read_loop_lem (suc left) value bs (nothing ∷ answers) v e = absurd cc
read_loop_lem (suc left) value bs (bytes n ∷ answers) v e =
    let m : ℕ = min n (suc left) in
    let chunk : List ℕ = take m bs in
    let P : Incoming × Result (List ℕ) → Type 0 = λ r.
      r.1 ≡ ok v
      → (v ≡ value ++ take (suc left) bs)
        × (r.0.data_left ≡ drop (suc left) bs)
        × (suc left ≤ length bs) in
    if_ind P (is_nil chunk) (record { data_left = bs; answers = answers }, err stream_closed)
      (read_loop (suc left - length chunk) (value ++ chunk) (drop m bs) answers)
      (λ empty f. absurd cc)
      (λ some_bytes f.
        let (g, h, i) =
          read_loop_lem (suc left - length chunk) (value ++ chunk) (drop m bs) answers v f in
        (
          g
              ∙ append_assoc value chunk (take (suc left - length chunk) (drop m bs))
              ∙ ap (◌++◌ value) (sym (take-split (suc left) m bs (omega arith))),
          h ∙ sym (drop-split (suc left) m bs (omega arith)),
          omega (arith, i, length-take m bs, length-drop m bs),
        ))
      e

read_exact_lem :
    (s : Incoming) (n : ℕ) (x rest v : List ℕ)
    → s.data_left ≡ x ++ rest
    → length x ≡ n
    → (read_exact s n).1 ≡ ok v
    → (v ≡ x) × ((read_exact s n).0.data_left ≡ rest)
unfolding read_exact
read_exact_lem s n x rest v e f g =
    let (a, b, c) = read_loop_lem n [] s.data_left s.answers v g in
    (
      a ∙ ap (take n) e ∙ ap (λ i. take i (x ++ rest)) (sym f) ∙ take-length x rest,
      b ∙ ap (drop n) e ∙ ap (λ i. drop i (x ++ rest)) (sym f) ∙ drop-length x rest,
    )

module _ {Json : Type 0} (codec : Codec Json) where
  read_body-ok :
      (r : Incoming × Result (List ℕ)) (value : Json)
      → (read_body codec r).1 ≡ ok value
      → (encoded : List ℕ) × (r.1 ≡ ok encoded)
        × (decode codec encoded ≡ ok value)
        × ((read_body codec r).0 ≡ r.0)
  unfolding read_body
  read_body-ok (s, ok encoded) value e = (encoded, refl, e, refl)
  read_body-ok (s, err f) value e = absurd cc
  read_body-ok (s, blocked) value e = absurd cc

  read_length-ok :
      (s : Incoming) (n : ℕ) (value : Json)
      → (read_length codec s (some n)).1 ≡ ok value
      → (n ≤ max_frame_bytes) × (read_length codec s (some n) ≡ read_body codec (read_exact s n))
  unfolding read_length
  read_length-ok s n value e = (ground arith, ground arith)

  read_header-ok :
      (r : Incoming × Result (List ℕ)) (value : Json)
      → (read_header codec r).1 ≡ ok value
      → (header : List ℕ) × (r.1 ≡ ok header)
        × (read_header codec r ≡ read_length codec r.0 (unpack header))
  unfolding read_header
  read_header-ok (s, ok header) value e = (header, refl, refl)
  read_header-ok (s, err f) value e = absurd cc
  read_header-ok (s, blocked) value e = absurd cc

  pub encode_frame-ok :
      (payload : Json) (frame : List ℕ)
      → encode_frame codec payload ≡ ok frame
      → (length (codec.dumps payload) ≤ max_frame_bytes)
        × (frame ≡ pack (length (codec.dumps payload)) ++ codec.dumps payload)
  unfolding encode_frame
  encode_frame-ok payload frame e = (ground arith, ground arith)

  decode-ok :
      (payload value : Json) (encoded : List ℕ)
      → codec.loads encoded ≡ some payload
      → decode codec encoded ≡ ok value
      → (value ≡ payload) × (codec.is_object payload ≡ true)
  unfolding decode
  decode-ok payload value encoded e f = (ground arith, ground arith)

  -- A frame that `encode_frame` made, with anything behind it, on a stream that may cut it up, fail
  -- or end at any point: if `read_frame` returns, it returns the payload and leaves what is behind.
  -- The codec has to read back what it wrote.
  pub read_frame_round_trip :
      (payload value : Json) (frame rest : List ℕ) (answers : List Answer)
      → codec.loads (codec.dumps payload) ≡ some payload
      → encode_frame codec payload ≡ ok frame
      → (read_frame codec (record { data_left = frame ++ rest; answers = answers })).1 ≡ ok value
      → (value ≡ payload)
        × ((read_frame codec (record { data_left = frame ++ rest; answers = answers })).0.data_left
            ≡ rest)
  unfolding read_frame pack
  read_frame_round_trip payload value frame rest answers law made e =
      let s : Incoming = record { data_left = frame ++ rest; answers = answers } in
      let d : List ℕ = codec.dumps payload in
      let (small, shape) = encode_frame-ok payload frame made in
      let (header, a, b) = read_header-ok (read_exact s 4) value e in
      let s' : Incoming = (read_exact s 4).0 in
      let (head, behind) =
        read_exact_lem s 4 (pack (length d)) (d ++ rest) header
          (ap (λ x. x ++ rest) shape ∙ append_assoc (pack (length d)) d rest) (omega arith) a in
      let to_length : read_frame codec s ≡ read_length codec s' (some (length d)) =
        b ∙ ap (read_length codec s') (ap unpack head ∙ unpack-pack (length d) (omega arith)) in
      let (_, to_body) = read_length-ok s' (length d) value (sym (ap (λ x. x.1) to_length) ∙ e) in
      let whole : read_frame codec s ≡ read_body codec (read_exact s' (length d)) =
        to_length ∙ to_body in
      let (encoded, c, decoded, kept) =
        read_body-ok (read_exact s' (length d)) value (sym (ap (λ x. x.1) whole) ∙ e) in
      let (body, left) = read_exact_lem s' (length d) d rest encoded behind refl c in
      (
        (decode-ok payload value encoded (ap codec.loads body ∙ law) decoded).0,
        ap (λ x. x.0.data_left) whole ∙ ap (λ x. x.data_left) kept ∙ left,
      )
