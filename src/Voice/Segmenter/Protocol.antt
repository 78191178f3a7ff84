-- ===== src/Voice/Segmenter/Protocol.antt =====
-- What holds of a segmenter between frames, and what its events mean.
use reframe_web.Prelude.{
  ℕ, zero, suc, ◌+◌, ◌*◌, ◌≤◌, ◌≡◌, refl, ◌∙◌, true, false, if_ind, take, drop, Option, none, some,
  List, [], ◌∷◌, ◌++◌, arith, length, leb, if◌then◌else◌, total_length, total_length-append,
  is_some,
}
use reframe_web.Voice.Vad.{VoiceActivityDecision}
use reframe_web.Voice.Segmenter.{
  Segmenter, DetectedUtterance, UtteranceEvent, endpoint, resumed, confirmed, reset, endpoint_of,
  endpoint_event, after_decision, count_silence, accept_before_start, accept_after_start,
  accept_chunk, drain, accept_event,
}
use reframe_web.Voice.Segmenter.Fields.{
  length-push_bounded, IsLongEnough, IsValid, Explains, decision_lem,
}

module _ {Sample F D : Type 0} (detect : D → List Sample → D × VoiceActivityDecision F) where
  before_start_lem :
      (s : Segmenter Sample F D) (frame : List Sample)
      → IsValid s
      → s.recording ≡ false
      → IsValid (accept_before_start detect s frame)
        × ((accept_before_start detect s frame).pending_endpoint ≡ s.pending_endpoint)
  unfolding accept_before_start
  before_start_lem s frame v idle = (
    record {
      chunk_pos = ground arith;
      pre_roll_fits = ground (arith, length-push_bounded s.pre_roll_limit s.pre_roll frame);
      counted = ground arith;
      idle_endpoint = ground arith;
      paired = ground arith;
      held = λ u e. ground (arith, v.held u);
    },
    ground arith,
  )

  after_start_lem :
      (s : Segmenter Sample F D) (frame : List Sample)
      → IsValid s
      → s.recording ≡ true
      → let (s', event) = accept_after_start detect s frame in IsValid s' × Explains s event s'
  unfolding accept_after_start
  after_start_lem s frame v rec =
      let (detector, decision) = detect s.detector frame in
      let s' : Segmenter Sample F D = record s {
        frames = s.frames ++ frame ∷ [];
        recording_samples = s.recording_samples + length frame;
        detector = detector;
      } in
      let grown : total_length (s.frames ++ frame ∷ []) ≡ total_length s.frames + length frame =
        omega (arith, total_length-append s.frames (frame ∷ [])) in
      let held : (u : DetectedUtterance Sample)
          → s.pending_endpoint ≡ some u
          → IsLongEnough s.config u × (length u.samples ≤ total_length s'.frames) =
        λ u e. let (long, fits) = v.held u e in (long, omega (arith, grown)) in
      let counted : s'.recording_samples ≡ total_length s'.frames = omega (arith, grown) in
      let v' : IsValid s' = record {
        chunk_pos = v.chunk_pos;
        pre_roll_fits = v.pre_roll_fits;
        counted = counted;
        idle_endpoint = v.idle_endpoint;
        paired = v.paired;
        held = held;
      } in
      decision_lem s' decision
        (leb (s.config.max_utterance_ms * s.config.sample_rate) (s'.recording_samples * 1000)) frame
        v' rec

  accept_chunk_lem :
      (s : Segmenter Sample F D) (frame : List Sample)
      → IsValid s
      → let (s', event) = accept_chunk detect s frame in IsValid s' × Explains s event s'
  unfolding accept_chunk
  accept_chunk_lem s frame v =
      if_ind (λ r. IsValid r.0 × Explains s r.1 r.0) s.recording (accept_after_start detect s frame)
        (accept_before_start detect s frame, none) (after_start_lem s frame v)
        (before_start_lem s frame v)

  config-accept_chunk :
      (s : Segmenter Sample F D) (frame : List Sample)
      → (accept_chunk detect s frame).0.config ≡ s.config
  unfolding accept_chunk accept_before_start accept_after_start after_decision endpoint_event
      endpoint_of count_silence reset
  config-accept_chunk s frame = ground arith

  -- An event after rounds without one is explained by the state before them.
  Explains-after :
      (s t u : Segmenter Sample F D) (event : Option (UtteranceEvent Sample))
      → t.config ≡ s.config
      → t.pending_endpoint ≡ s.pending_endpoint
      → Explains t event u
      → Explains s event u
  Explains-after s t u none c e h = h ∙ e
  Explains-after s t u (some (endpoint x)) c e h = (rw (← c) h.0, h.1)
  Explains-after s t u (some resumed) c e h = (rw (← e) h.0, h.1, h.2)
  Explains-after s t u (some (confirmed x)) c e h = (h.0 ∙ e, h.1, h.2, h.3)

  Explains-none :
      (s t : Segmenter Sample F D) (event : Option (UtteranceEvent Sample))
      → is_some event ≡ false
      → Explains s event t
      → t.pending_endpoint ≡ s.pending_endpoint
  Explains-none s t none e h = h
  Explains-none s t (some x) e h = cc

  drain_lem :
      (fuel : ℕ) (s : Segmenter Sample F D)
      → IsValid s
      → let (s', event) = drain detect fuel s in IsValid s' × Explains s event s'
  unfolding drain
  drain_lem zero s v = (v, refl)
  drain_lem (suc fuel) s v =
      let s1 : Segmenter Sample F D = record s { pending = drop s.chunk_samples s.pending } in
      let chunk : List Sample = take s.chunk_samples s.pending in
      let (s2, event) = accept_chunk detect s1 chunk in
      let v1 : IsValid s1 = record {
        chunk_pos = v.chunk_pos;
        pre_roll_fits = v.pre_roll_fits;
        counted = v.counted;
        idle_endpoint = v.idle_endpoint;
        paired = v.paired;
        held = v.held;
      } in
      let (v2, explained) = accept_chunk_lem s1 chunk v1 in
      let (v3, later) = drain_lem fuel s2 v2 in
      if_ind (λ r. IsValid r.0 × Explains s r.1 r.0) (leb s.chunk_samples (length s.pending))
        (if is_some event then (s2, event) else drain detect fuel s2) (s, none)
        (λ _.
          if_ind (λ r. IsValid r.0 × Explains s r.1 r.0) (is_some event) (s2, event)
            (drain detect fuel s2) (λ _. (v2, explained))
            (λ e. (
              v3,
              Explains-after s s2 (drain detect fuel s2).0 (drain detect fuel s2).1
                  (config-accept_chunk s1 chunk) (Explains-none s1 s2 event e explained) later,
            )))
        (λ _. (v, refl))

  -- A frame keeps the invariant. An endpoint carries at least the configured minimum of audio and is
  -- either held or followed by a reset; `resumed` and `confirmed` come only while an endpoint is held,
  -- `confirmed` with that endpoint's utterance; and where a frame gives no event, a held endpoint
  -- stays as it is.
  pub accept_event_protocol :
      (s : Segmenter Sample F D) (frame : List Sample)
      → IsValid s
      → let (s', event) = accept_event detect s frame in IsValid s' × Explains s event s'
  unfolding accept_event
  accept_event_protocol s [] v = (v, refl)
  accept_event_protocol s (x ∷ frame) v =
      let s1 : Segmenter Sample F D = record s { pending = s.pending ++ x ∷ frame } in
      let v1 : IsValid s1 = record {
        chunk_pos = v.chunk_pos;
        pre_roll_fits = v.pre_roll_fits;
        counted = v.counted;
        idle_endpoint = v.idle_endpoint;
        paired = v.paired;
        held = v.held;
      } in
      let (v2, explained) = drain_lem (length s1.pending) s1 v1 in
      (
        v2,
        Explains-after s s1 (drain detect (length s1.pending) s1).0
            (drain detect (length s1.pending) s1).1 refl refl explained,
      )
