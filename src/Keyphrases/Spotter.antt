-- ===== src/Keyphrases/Spotter.antt =====
-- pocketsphinx_phrase.py of agent-host/src/reframe_agent_host/keyphrases: the spotter's window on the
-- audio it has heard, and its detections. The PocketSphinx decoder is an argument.
pub mod Window
pub mod Replay
pub mod Once
use Prim.Native.String.{String}
use reframe_web.Prelude.{
  ℕ, zero, suc, ◌+◌, ◌-◌, ◌*◌, ◌/◌, min, max, Bool, true, false, Option, none, some, List, [], ◌∷◌,
  ◌++◌, ltb, leb, if◌then◌else◌, length, take, drop, is_nil, or_else,
}
use reframe_web.Voice.Capture.{KeyphraseKind, KeyphraseDetection, Spotter}
use reframe_web.Voice.Capture

-- `trim_frames_from_sample`
unfoldable pub trim_from : {Sample : Type 0} → List (List Sample) → ℕ → List (List Sample)
trim_from [] skip = []
trim_from (frame ∷ frames) skip =
    let passed = trim_from frames (skip - length frame) in
    let rest = trim_from frames 0 in
    if leb (length frame) skip then passed else drop skip frame ∷ rest

-- The loop of `trim_frames_between_samples`
unfoldable pub trim_loop : {Sample : Type 0} → List (List Sample) → ℕ → ℕ → List (List Sample)
trim_loop [] skip left = []
trim_loop (frame ∷ frames) skip zero = []
trim_loop (frame ∷ frames) skip (suc left) =
    let passed = trim_loop frames (skip - length frame) (suc left) in
    let part = take (suc left) (drop skip frame) in
    let rest = trim_loop frames 0 (suc left - length part) in
    if leb (length frame) skip then passed else part ∷ rest

unfoldable pub trim_between : {Sample : Type 0} → List (List Sample) → ℕ → ℕ → List (List Sample)
trim_between frames start_sample end_sample =
    if leb end_sample start_sample
    then []
    else trim_loop frames start_sample (end_sample - start_sample)

-- The loop of `_trim_buffer`: the frames left, and how many samples are gone.
unfoldable pub trim_front : {Sample : Type 0} → ℕ → List (List Sample) → List (List Sample) × ℕ
trim_front zero frames = (frames, 0)
trim_front (suc extra) [] = ([], 0)
trim_front (suc extra) (frame ∷ frames) =
    let (rest, gone) = trim_front (suc extra - length frame) frames in
    if leb (length frame) (suc extra)
    then (rest, length frame + gone)
    else (drop (suc extra) frame ∷ frames, suc extra)

-- The buffer's attributes
pub record Buffer (Sample : Type 0) : Type 0 where
  pub frames : List (List Sample)
  pub buffer_samples : ℕ
  pub buffer_start_sample : ℕ
  pub processed_samples : ℕ
  pub max_buffer_samples : ℕ

unfoldable pub create_buffer : {Sample : Type 0} → ℕ → Buffer Sample
create_buffer max_buffer_ms = record {
  frames = [];
  buffer_samples = 0;
  buffer_start_sample = 0;
  processed_samples = 0;
  max_buffer_samples = max 1 (16 * max_buffer_ms);
}

-- `append` and `_trim_buffer`, without the decoder
unfoldable pub append_frame : {Sample : Type 0} → Buffer Sample → List Sample → Buffer Sample
append_frame b frame =
    let size = b.buffer_samples + length frame in
    let (frames, gone) = trim_front (size - b.max_buffer_samples) (b.frames ++ frame ∷ []) in
    record b {
      frames = frames;
      buffer_samples = size - gone;
      buffer_start_sample = b.buffer_start_sample + gone;
      processed_samples = b.processed_samples + length frame;
    }

-- `replay_frames_for_detection`, at 16 samples a millisecond
unfoldable pub replay_frames :
    {Sample : Type 0} → Buffer Sample → KeyphraseDetection → ℕ → List (List Sample)
replay_frames b detection pre_roll_ms =
    elim (or_else detection.phrase_end_sample detection.phrase_start_sample) [
      | none ↦ b.frames
      | some boundary_sample ↦ trim_from b.frames (boundary_sample - 16 * pre_roll_ms)
    ]

abbrev pub confirmation_start : ℕ → ℕ → ℕ → ℕ
confirmation_start phrase_start phrase_end window_ms =
    max (phrase_end - max 1 (16 * window_ms)) phrase_start

-- `confirmation_frames_for_detection`
unfoldable pub confirmation_frames :
    {Sample : Type 0} → Buffer Sample → KeyphraseDetection → ℕ → List (List Sample)
confirmation_frames b detection window_ms = elim detection.phrase_start_sample [
  | none ↦ b.frames
  | some phrase_start ↦ elim detection.phrase_end_sample [
    | none ↦ b.frames
    | some phrase_end ↦
        trim_between b.frames
          (confirmation_start phrase_start (max phrase_start phrase_end) window_ms)
          (max phrase_start phrase_end)
  ]
]

-- `matched_phrase`'s answer
pub record Match : Type 0 where
  pub kind : KeyphraseKind
  pub phrase : String
  pub matched_phrase : String

-- What the spotter calls: the running decoder, the phrase aliases, the spans of its segments in the
-- audio since its start, and a second decoder over the buffered frames.
pub record Decoder (Sample D : Type 0) : Type 0 where
  pub start : D
  pub process_raw : D → List Sample → D
  pub hyp : D → Option String
  pub matched : String → Option Match
  pub segment_span : D → String → Option (ℕ × ℕ)
  pub keyword_spotted : List (List Sample) → String → Option (Option ℕ × Option ℕ)

pub record PhraseSpotter (Sample D : Type 0) : Type 0 where
  pub buffer : Buffer Sample
  pub decoder : D
  pub frames_since_check : ℕ
  pub check_interval_frames : ℕ
  pub last_hypstr : Option String
  pub closed : Bool
  pub detection_emitted : Bool

module _ {Sample D : Type 0} (decoder : Decoder Sample D) where
  unfoldable pub create : ℕ → ℕ → PhraseSpotter Sample D
  unfolding create_buffer
  create check_interval_frames max_buffer_ms = record {
    buffer = create_buffer max_buffer_ms;
    decoder = decoder.start;
    frames_since_check = 0;
    check_interval_frames = max 1 check_interval_frames;
    last_hypstr = none;
    closed = false;
    detection_emitted = false;
  }

  unfoldable pub append : PhraseSpotter Sample D → List Sample → PhraseSpotter Sample D
  append s frame = record s {
    buffer = append_frame s.buffer frame;
    decoder = decoder.process_raw s.decoder frame;
    frames_since_check = s.frames_since_check + 1;
  }

  -- `_phrase_sample_span`: a span in the buffer
  phrase_sample_span : PhraseSpotter Sample D → String → Option ℕ × Option ℕ
  phrase_sample_span s phrase = elim (decoder.segment_span s.decoder phrase) [
    | none ↦ (none, none)
    | some span ↦
        (some (span.0 - s.buffer.buffer_start_sample), some (span.1 - s.buffer.buffer_start_sample))
  ]

  -- `_confirmed_phrase_span`
  unfoldable pub confirmed_span : PhraseSpotter Sample D → Match → Option (Option ℕ × Option ℕ)
  unfolding phrase_sample_span
  confirmed_span s m = elim m.kind [
    | Capture.conversation_on ↦ some (phrase_sample_span s m.matched_phrase)
    | Capture.wake_phrase ↦
        or_else (decoder.keyword_spotted s.buffer.frames m.matched_phrase)
          (decoder.keyword_spotted s.buffer.frames m.phrase)
  ]

  detect_match :
      PhraseSpotter Sample D
      → String
      → Option Match
      → PhraseSpotter Sample D × Option KeyphraseDetection
  detect_match s hypstr none = (s, none)
  detect_match s hypstr (some m) = elim (confirmed_span s m) [
    | none ↦ (s, none)
    | some span ↦ (
      record s { detection_emitted = true },
      some (record {
        kind = m.kind;
        phrase = m.phrase;
        hypstr = hypstr;
        confirmed = true;
        phrase_start_sample = span.0;
        phrase_end_sample = span.1;
      }),
    )
  ]

  detect_hypothesis :
      PhraseSpotter Sample D → Option String → PhraseSpotter Sample D × Option KeyphraseDetection
  unfolding detect_match
  detect_hypothesis s none = (record s { last_hypstr = none }, none)
  detect_hypothesis s (some hypstr) =
      detect_match (record s { last_hypstr = some hypstr }) hypstr (decoder.matched hypstr)

  -- `detect`
  unfoldable pub detect :
      PhraseSpotter Sample D → Bool → PhraseSpotter Sample D × Option KeyphraseDetection
  unfolding detect_hypothesis
  detect s force =
      if s.detection_emitted
      then (s, none)
      else if is_nil s.buffer.frames
      then (s, none)
      else if (if force then false else ltb s.frames_since_check s.check_interval_frames)
      then (s, none)
      else detect_hypothesis (record s { frames_since_check = 0 }) (decoder.hyp s.decoder)

  unfoldable pub close : PhraseSpotter Sample D → PhraseSpotter Sample D
  close s = record s { closed = true }

  -- The spotter as the keyphrase gate of the capture uses it.
  unfoldable pub spotter : ℕ → ℕ → Spotter Sample (PhraseSpotter Sample D)
  spotter check_interval_frames max_buffer_ms = record {
    create = create check_interval_frames max_buffer_ms;
    append = append;
    detect = λ s. detect s false;
    close = close;
    confirmation_frames = λ s. confirmation_frames s.buffer;
    replay_frames = λ s. replay_frames s.buffer;
  }
