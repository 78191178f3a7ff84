-- ===== src/Keyphrases/Spotter/Once.antt =====
-- A spotter detects once.
use Prim.Native.String.{String}
use reframe_web.Prelude.{
  ℕ, ◌≡◌, refl, ap, sym, ◌∙◌, Bool, true, false, Option, none, some, List, [], ◌∷◌, ltb,
  if◌then◌else◌, if_ind, is_nil, length, ◌≤◌, arith,
}
use reframe_web.Voice.Capture.{KeyphraseDetection}
use reframe_web.Keyphrases.Spotter.{
  Decoder, Match, PhraseSpotter, append, detect, detect_match, detect_hypothesis, confirmed_span,
  close,
}

-- What is done with a spotter.
pub data Use (Sample : Type 0) : Type 0 where
  hears : List Sample → Use Sample
  checks : Bool → Use Sample
  closes : Use Sample

module _ {Sample D : Type 0} (decoder : Decoder Sample D) where
  -- The detections of a run of uses.
  abbrev pub detections : PhraseSpotter Sample D → List (Use Sample) → List KeyphraseDetection
  detections s [] = []
  detections s (hears frame ∷ us) = detections (append decoder s frame) us
  detections s (closes ∷ us) = detections (close decoder s) us
  detections s (checks force ∷ us) =
      let (s', found) = detect decoder s force in
      let rest = detections s' us in elim found [ none ↦ rest | some d ↦ d ∷ rest ]

  -- A check either detects, and says so in the state, or leaves the flag as it was.
  Flagged : PhraseSpotter Sample D → PhraseSpotter Sample D × Option KeyphraseDetection → Type 0
  Flagged s (t, none) = t.detection_emitted ≡ s.detection_emitted
  Flagged s (t, some d) = (s.detection_emitted ≡ false) × (t.detection_emitted ≡ true)

  span_lem :
      (s : PhraseSpotter Sample D) (hypstr : String) (m : Match)
      (span : Option (Option ℕ × Option ℕ))
      → s.detection_emitted ≡ false
      → Flagged s (elim span [
        | none ↦ (s, none)
        | some x ↦ (
          record s { detection_emitted = true },
          some (record {
            kind = m.kind;
            phrase = m.phrase;
            hypstr = hypstr;
            confirmed = true;
            phrase_start_sample = x.0;
            phrase_end_sample = x.1;
          }),
        )
      ])
  unfolding Flagged
  span_lem s hypstr m none e = refl
  span_lem s hypstr m (some x) e = (e, refl)

  match_lem :
      (s : PhraseSpotter Sample D) (hypstr : String) (m : Option Match)
      → s.detection_emitted ≡ false
      → Flagged s (detect_match decoder s hypstr m)
  unfolding detect_match Flagged
  match_lem s hypstr none e = refl
  match_lem s hypstr (some m) e = span_lem s hypstr m (confirmed_span decoder s m) e

  flagged_lem :
      (s t : PhraseSpotter Sample D) (r : PhraseSpotter Sample D × Option KeyphraseDetection)
      → t.detection_emitted ≡ s.detection_emitted
      → Flagged t r
      → Flagged s r
  unfolding Flagged
  flagged_lem s t (u, none) e h = h ∙ e
  flagged_lem s t (u, some d) e (h, k) = (sym e ∙ h, k)

  hypothesis_lem :
      (s : PhraseSpotter Sample D) (hyp : Option String)
      → s.detection_emitted ≡ false
      → Flagged s (detect_hypothesis decoder s hyp)
  unfolding detect_hypothesis Flagged
  hypothesis_lem s none e = refl
  hypothesis_lem s (some hypstr) e =
      let t : PhraseSpotter Sample D = record s { last_hypstr = some hypstr } in
      flagged_lem s t (detect_match decoder t hypstr (decoder.matched hypstr)) refl
        (match_lem t hypstr (decoder.matched hypstr) e)

  detect_lem : (s : PhraseSpotter Sample D) (force : Bool) → Flagged s (detect decoder s force)
  unfolding detect Flagged
  detect_lem s force =
      if_ind (Flagged s) s.detection_emitted (s, none) _ (λ _. refl)
        λ going.
          if_ind (Flagged s) (is_nil s.buffer.frames) (s, none) _ (λ _. refl)
            λ _.
              if_ind (Flagged s)
                (if force then false else ltb s.frames_since_check s.check_interval_frames)
                (s, none) _ (λ _. refl)
                λ _.
                  let t : PhraseSpotter Sample D = record s { frames_since_check = 0 } in
                  flagged_lem s t (detect_hypothesis decoder t (decoder.hyp s.decoder)) refl
                    (hypothesis_lem t (decoder.hyp s.decoder) going)

  found_lem :
      (s : PhraseSpotter Sample D) (us : List (Use Sample))
      (r : PhraseSpotter Sample D × Option KeyphraseDetection)
      → Flagged s r
      → length (detections r.0 us) ≤ 1
      → (r.0.detection_emitted ≡ true → detections r.0 us ≡ [])
      → (s.detection_emitted ≡ true
          → (elim r.1 [ none ↦ detections r.0 us | some d ↦ d ∷ detections r.0 us ]) ≡ [])
        × (length (elim r.1 [ none ↦ detections r.0 us | some d ↦ d ∷ detections r.0 us ]) ≤ 1)
  unfolding Flagged
  found_lem s us (t, none) h l m = (λ e. m (h ∙ e), l)
  found_lem s us (t, some d) (h, i) l m = (λ e. absurd (cc (e, h)), omega (arith, ap length (m i)))

  once_lem :
      (s : PhraseSpotter Sample D) (us : List (Use Sample))
      → (s.detection_emitted ≡ true → detections s us ≡ []) × (length (detections s us) ≤ 1)
  unfolding append close
  once_lem s [] = (λ _. refl, omega arith)
  once_lem s (hears frame ∷ us) = once_lem (append decoder s frame) us
  once_lem s (closes ∷ us) = once_lem (close decoder s) us
  once_lem s (checks force ∷ us) =
      let (none_after, at_most_one) = once_lem (detect decoder s force).0 us in
      found_lem s us (detect decoder s force) (detect_lem s force) at_most_one none_after

  -- Whatever a spotter hears, and however often it is asked, it gives at most one detection.
  pub detects_once :
      (s : PhraseSpotter Sample D) (us : List (Use Sample)) → length (detections s us) ≤ 1
  detects_once s us = (once_lem s us).1
