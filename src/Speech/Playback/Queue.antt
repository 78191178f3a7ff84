-- ===== src/Speech/Playback/Queue.antt =====
-- The queue plays what was enqueued, in order and without loss.
use reframe_web.Prelude.{
  ℕ, zero, suc, ◌+◌, ◌-◌, ◌≤◌, min, ◌≡◌, refl, ap, sym, ◌∙◌, Bool, true, false, List, [], ◌∷◌, ◌++◌,
  ltb→lt, lt→ltb, ◌==◌, ==_iff, if_ind, length, take, drop, replicate, concat, total_length,
  length-append, take-append-drop, length-take, length-drop, total_length-append, length-concat,
  append_assoc, arith,
}
use reframe_web.Speech.Playback.{Output, create, clear, enqueue, fill, append_recent, callback}

module _ {Sample : Type 0} where
  fill_lem :
      (left : ℕ) (chunks : List (List Sample))
      → ((fill left chunks).0 ++ concat (fill left chunks).1 ≡ concat chunks)
        × (length (fill left chunks).0 ≡ min left (total_length chunks))
  unfolding fill
  fill_lem zero chunks = (refl, omega arith)
  fill_lem (suc left) [] = (refl, omega arith)
  fill_lem (suc left) (chunk ∷ chunks) =
      let (e, n) = fill_lem (suc left - length chunk) chunks in
      let rest : List Sample × List (List Sample) = fill (suc left - length chunk) chunks in
      if_ind
        (λ (r : List Sample × List (List Sample)).
          (r.0 ++ concat r.1 ≡ chunk ++ concat chunks)
          × (length r.0 ≡ min (suc left) (length chunk + total_length chunks)))
        (min (suc left) (length chunk) == length chunk) (chunk ++ rest.0, rest.1)
        (take (suc left) chunk, drop (suc left) chunk ∷ chunks)
        (λ whole. (
          append_assoc chunk rest.0 (concat rest.1) ∙ ap (◌++◌ chunk) e,
          omega (
            arith,
            n,
            length-append chunk rest.0,
            (==_iff (min (suc left) (length chunk)) (length chunk)).0 whole,
          ),
        ))
        (λ part. (
          sym (append_assoc (take (suc left) chunk) (drop (suc left) chunk) (concat chunks))
              ∙ ap (λ x. x ++ concat chunks) (take-append-drop (suc left) chunk),
          ground (
            arith,
            length-take (suc left) chunk,
            ==_iff (min (suc left) (length chunk)) (length chunk),
          ),
        ))

  take-front : (xs ys : List Sample) → take (length xs) (xs ++ ys) ≡ xs
  take-front [] ys = refl
  take-front (x ∷ xs) ys = ap (◌∷◌ x) (take-front xs ys)

  front_lem : (xs ys zs : List Sample) → xs ++ ys ≡ zs → xs ≡ take (length xs) zs
  front_lem xs ys zs e = sym (take-front xs ys) ∙ ap (take (length xs)) e

  length-replicate : (n : ℕ) (a : Sample) → length (replicate n a) ≡ n
  length-replicate zero a = refl
  length-replicate (suc n) a = ap suc (length-replicate n a)

  -- The counters say what the queue holds, and the recent samples stay within their limit.
  pub record IsCounted (o : Output Sample) : Type 0 where
    pub queued : o.queued_samples ≡ total_length o.chunks
    pub recent : length o.recent_samples ≤ o.recent_sample_limit

  pub create-IsCounted : (sample_rate : ℕ) → IsCounted (create sample_rate)
  unfolding create
  create-IsCounted sample_rate = record { queued = refl; recent = omega arith }

  clear-IsCounted : (o : Output Sample) (reset : Bool) → IsCounted o → IsCounted (clear o reset)
  unfolding clear
  clear-IsCounted o true v = record { queued = refl; recent = omega arith }
  clear-IsCounted o false v = record { queued = refl; recent = v.recent }

  pub enqueue-IsCounted :
      (o : Output Sample) (audio : List Sample) → IsCounted o → IsCounted (enqueue o audio).0
  unfolding enqueue
  enqueue-IsCounted o [] v = v
  enqueue-IsCounted o (x ∷ audio) v = record {
    queued = omega (arith, v.queued, total_length-append o.chunks ((x ∷ audio) ∷ []));
    recent = v.recent;
  }

  append_recent-length :
      (limit : ℕ) (recent samples : List Sample)
      → length (append_recent limit recent samples) ≤ limit
  append_recent-length limit recent samples = ground (
    arith,
    ltb→lt limit (length (recent ++ samples)),
    lt→ltb limit (length (recent ++ samples)),
    length-drop (length (recent ++ samples) - limit) (recent ++ samples),
  )

  callback-IsCounted :
      (silence : Sample) (frames : ℕ) (o : Output Sample)
      → IsCounted o
      → IsCounted (callback silence frames o).1
  unfolding callback
  callback-IsCounted silence frames o v =
      let (e, n) = fill_lem frames o.chunks in
      record {
        queued = omega (
          arith,
          v.queued,
          n,
          ap length e,
          length-append (fill frames o.chunks).0 (concat (fill frames o.chunks).1),
          length-concat o.chunks,
          length-concat (fill frames o.chunks).1,
        );
        recent = append_recent-length o.recent_sample_limit o.recent_samples _;
      }

  -- For any request of the device: the output has the length asked for, and is the front of the
  -- queue, then silence only where the queue was too short; what is left of the queue is the rest, and
  -- the counters move by what was played.
  pub callback_conserves :
      (silence : Sample) (frames : ℕ) (o : Output Sample)
      → IsCounted o
      → let played : List Sample = take (min frames o.queued_samples) (concat o.chunks) in
        let after : Output Sample = (callback silence frames o).1 in
        ((callback silence frames o).0 ≡ played ++ replicate (frames - o.queued_samples) silence)
        × (length (callback silence frames o).0 ≡ frames)
        × (played ++ concat after.chunks ≡ concat o.chunks)
        × (after.played_samples ≡ o.played_samples + length played)
        × IsCounted after
  unfolding callback
  callback_conserves silence frames o v =
      let filled : List Sample = (fill frames o.chunks).0 in
      let (e, n) = fill_lem frames o.chunks in
      let size : length filled ≡ min frames o.queued_samples = omega (arith, n, v.queued) in
      let front : filled ≡ take (min frames o.queued_samples) (concat o.chunks) =
        front_lem filled (concat (fill frames o.chunks).1) (concat o.chunks) e
        ∙ ap (λ i. take i (concat o.chunks)) size in
      let gap : frames - length filled ≡ frames - o.queued_samples = omega (arith, size) in
      (
        ap (λ x. x ++ replicate (frames - length filled) silence) front
            ∙ ap (λ i. take (min frames o.queued_samples) (concat o.chunks) ++ replicate i silence)
                gap,
        omega (
          arith,
          length-append filled (replicate (frames - length filled) silence),
          length-replicate (frames - length filled) silence,
          size,
        ),
        ap (λ x. x ++ concat (fill frames o.chunks).1) (sym front) ∙ e,
        ap (λ x. o.played_samples + length x) front,
        callback-IsCounted silence frames o v,
      )
