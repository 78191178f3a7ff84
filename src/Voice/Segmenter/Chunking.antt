-- ===== src/Voice/Segmenter/Chunking.antt =====
-- How `accept_event` of utterance_segmenter.py cuts the incoming audio into chunks.
use reframe_web.Prelude.{
  ℕ, zero, suc, ◌-◌, ◌≤◌, ◌<◌, ◌≡◌, none, List, [], ◌∷◌, ◌++◌, arith, length, take, drop,
  length-drop,
}
use reframe_web.Voice.Vad.{VoiceActivityDecision}
use reframe_web.Voice.Segmenter.{
  Segmenter, reset, endpoint_event, endpoint_of, count_silence, accept_before_start,
  accept_after_start, after_decision, accept_chunk, drain, accept_event,
}

module _ {Sample F D : Type 0} (detect : D → List Sample → D × VoiceActivityDecision F) where
  chunk_samples-accept_chunk :
      (s : Segmenter Sample F D) (frame : List Sample)
      → (accept_chunk detect s frame).0.chunk_samples ≡ s.chunk_samples
  unfolding accept_chunk accept_before_start accept_after_start after_decision endpoint_event
      endpoint_of count_silence reset
  chunk_samples-accept_chunk s frame = ground arith

  length-pending-accept_chunk-le :
      (s : Segmenter Sample F D) (frame : List Sample)
      → length (accept_chunk detect s frame).0.pending ≤ length s.pending
  unfolding accept_chunk accept_before_start accept_after_start after_decision endpoint_event
      endpoint_of count_silence reset
  length-pending-accept_chunk-le s frame = ground arith

  drain_rest :
      (fuel : ℕ) (s : Segmenter Sample F D)
      → 0 < s.chunk_samples
      → length s.pending ≤ fuel
      → (drain detect fuel s).1 ≡ none
      → length (drain detect fuel s).0.pending < s.chunk_samples
  unfolding drain
  drain_rest zero s pos enough e = omega arith
  drain_rest (suc fuel) s pos enough e =
      let s1 : Segmenter Sample F D = record s { pending = drop s.chunk_samples s.pending } in
      let chunk : List Sample = take s.chunk_samples s.pending in
      let (s2, event) = accept_chunk detect s1 chunk in
      let same : s2.chunk_samples ≡ s.chunk_samples = chunk_samples-accept_chunk s1 chunk in
      let shorter : length s2.pending ≤ length s.pending - s.chunk_samples =
        omega
          (arith, length-pending-accept_chunk-le s1 chunk, length-drop s.chunk_samples s.pending) in
      ground (arith, drain_rest fuel s2)

  -- A frame that gives no event leaves less than one chunk unprocessed: the loop of `accept_event`
  -- runs to its end.
  pub accept_event_rest :
      (s : Segmenter Sample F D) (frame : List Sample)
      → 0 < s.chunk_samples
      → length s.pending < s.chunk_samples
      → (accept_event detect s frame).1 ≡ none
      → length (accept_event detect s frame).0.pending < s.chunk_samples
  unfolding accept_event
  accept_event_rest s [] pos short e = short
  accept_event_rest s (x ∷ frame) pos short e =
      drain_rest (length (s.pending ++ x ∷ frame)) (record s { pending = s.pending ++ x ∷ frame })
        pos (omega arith) e
