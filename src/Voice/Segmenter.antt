-- ===== src/Voice/Segmenter.antt =====
-- utterance_segmenter.py of agent-host/src/reframe_agent_host/voice. The detector is any object
-- with an `accept`; a duration in seconds is the pair of its samples and the sample rate, and is
-- compared by cross multiplication.
pub mod Fields
pub mod Protocol
pub mod Chunking
use reframe_web.Prelude.{
  ℕ, zero, suc, ◌+◌, ◌-◌, ◌*◌, ◌/◌, Bool, true, false, Option, none, some, List, [], ◌∷◌, ◌++◌, max,
  leb, ltb, ◌==◌, ◌||◌, if◌then◌else◌, length, take, drop, concat, total_length, is_some, is_nil,
}
use reframe_web.Voice.Vad.{VoiceActivityConfig, VoiceActivityDecision, round_div}

pub record DetectedUtterance (Sample : Type 0) : Type 0 where
  pub samples : List Sample
  pub sample_rate : ℕ
  pub forced_end : Bool

-- `UtteranceEvent`: the kind, with the utterance that it carries
pub data UtteranceEvent (Sample : Type 0) : Type 0 where
  endpoint : DetectedUtterance Sample → UtteranceEvent Sample
  resumed : UtteranceEvent Sample
  confirmed : Option (DetectedUtterance Sample) → UtteranceEvent Sample

-- `UtteranceSegmenter`, over the state `D` of its detector. `pre_roll_limit` is the `maxlen` of the
-- deque `_pre_roll`.
pub record Segmenter (Sample F D : Type 0) : Type 0 where
  pub detector : D
  pub config : VoiceActivityConfig F
  pub pre_roll : List (List Sample)
  pub pre_roll_limit : ℕ
  pub chunk_samples : ℕ
  pub final_silence_samples : ℕ
  pub pending : List Sample
  pub frames : List (List Sample)
  pub pending_end_samples : Option ℕ
  pub pending_endpoint : Option (DetectedUtterance Sample)
  pub recording_samples : ℕ
  pub recording : Bool

-- `deque.append` with a `maxlen`: the oldest entries fall off the left.
unfoldable pub push_bounded {ℓ} : {A : Type ℓ} → ℕ → List A → A → List A
push_bounded limit xs x = let ys = xs ++ x ∷ [] in drop (length ys - limit) ys

module _ {Sample F D : Type 0} where
  -- `__init__`, for a configuration with a positive `chunk_ms`
  unfoldable pub create : D → VoiceActivityConfig F → Segmenter Sample F D
  unfolding round_div
  create detector config = record {
    detector = detector;
    config = config;
    pre_roll = [];
    pre_roll_limit = max 1 (round_div config.pre_speech_ms config.chunk_ms);
    chunk_samples = max 1 (config.sample_rate * config.chunk_ms / 1000);
    final_silence_samples =
        config.sample_rate * (config.final_silence_ms - config.min_silence_ms) / 1000;
    pending = [];
    frames = [];
    pending_end_samples = none;
    pending_endpoint = none;
    recording_samples = 0;
    recording = false;
  }

  unfoldable pub reset : Segmenter Sample F D → Segmenter Sample F D
  reset s = record s {
    pending = [];
    frames = [];
    pending_end_samples = none;
    pending_endpoint = none;
    recording_samples = 0;
    recording = false;
    pre_roll = [];
  }

  -- `_build_utterance`
  unfoldable pub build_utterance : Segmenter Sample F D → Bool → Option (DetectedUtterance Sample)
  build_utterance s forced_end =
      let samples = concat s.frames in
      if ltb (length samples * 1000) (s.config.min_utterance_ms * s.config.sample_rate)
      then none
      else some (record {
        samples = samples;
        sample_rate = s.config.sample_rate;
        forced_end = forced_end;
      })

  -- `_endpoint_event`, on what `_build_utterance` returned
  unfoldable pub endpoint_of :
      Segmenter Sample F D
      → Option (DetectedUtterance Sample)
      → Bool
      → Segmenter Sample F D × Option (UtteranceEvent Sample)
  endpoint_of s none to_reset = (reset s, none)
  endpoint_of s (some utterance) to_reset = (
    if to_reset then reset s else record s { pending_endpoint = some utterance },
    some (endpoint utterance),
  )

  unfoldable pub endpoint_event :
      Segmenter Sample F D → Bool → Bool → Segmenter Sample F D × Option (UtteranceEvent Sample)
  endpoint_event s forced_end to_reset = endpoint_of s (build_utterance s forced_end) to_reset

  -- The end of `_accept_after_start`: silence that counts towards the final silence.
  unfoldable pub count_silence :
      Segmenter Sample F D
      → Option ℕ
      → List Sample
      → Segmenter Sample F D × Option (UtteranceEvent Sample)
  count_silence s none frame = (s, none)
  count_silence s (some silence) frame =
      let counted = silence + length frame in
      if ltb counted s.final_silence_samples
      then (record s { pending_end_samples = some counted }, none)
      else (reset s, some (confirmed s.pending_endpoint))

  -- `_accept_after_start`, once the frame is recorded and the detector has decided
  unfoldable pub after_decision :
      Segmenter Sample F D
      → VoiceActivityDecision F
      → Bool
      → List Sample
      → Segmenter Sample F D × Option (UtteranceEvent Sample)
  after_decision s decision forced_end frame =
      if forced_end
      then endpoint_event s forced_end true
      else if decision.started || decision.is_speech
      then (
        record s { pending_end_samples = none; pending_endpoint = none },
        if is_some s.pending_end_samples then some resumed else none,
      )
      else if decision.ended
      then endpoint_event (record s { pending_end_samples = some 0 }) forced_end
          (s.final_silence_samples == 0)
      else count_silence s s.pending_end_samples frame

module _ {Sample F D : Type 0} (detect : D → List Sample → D × VoiceActivityDecision F) where
  unfoldable pub accept_before_start : Segmenter Sample F D → List Sample → Segmenter Sample F D
  accept_before_start s frame =
      let pre_roll = push_bounded s.pre_roll_limit s.pre_roll frame in
      let (detector, decision) = detect s.detector frame in
      let s' = record s { pre_roll = pre_roll; detector = detector } in
      if decision.started
      then record s' {
        recording = true;
        frames = pre_roll;
        recording_samples = total_length pre_roll;
      }
      else s'

  unfoldable pub accept_after_start :
      Segmenter Sample F D → List Sample → Segmenter Sample F D × Option (UtteranceEvent Sample)
  accept_after_start s frame =
      let (detector, decision) = detect s.detector frame in
      let s' = record s {
        frames = s.frames ++ frame ∷ [];
        recording_samples = s.recording_samples + length frame;
        detector = detector;
      } in
      let forced_end =
        leb (s'.config.max_utterance_ms * s'.config.sample_rate) (s'.recording_samples * 1000) in
      after_decision s' decision forced_end frame

  -- `_accept_chunk`
  unfoldable pub accept_chunk :
      Segmenter Sample F D → List Sample → Segmenter Sample F D × Option (UtteranceEvent Sample)
  accept_chunk s frame =
      if s.recording then accept_after_start s frame else (accept_before_start s frame, none)

  -- The loop of `accept_event`. Each round takes `chunk_samples` from `pending`, so as many rounds
  -- as there are pending samples are enough.
  unfoldable pub drain :
      ℕ → Segmenter Sample F D → Segmenter Sample F D × Option (UtteranceEvent Sample)
  drain zero s = (s, none)
  drain (suc fuel) s =
      let s' = record s { pending = drop s.chunk_samples s.pending } in
      let (s'', event) = accept_chunk s' (take s.chunk_samples s.pending) in
      let rest = drain fuel s'' in
      if leb s.chunk_samples (length s.pending)
      then (if is_some event then (s'', event) else rest)
      else (s, none)

  unfoldable pub accept_event :
      Segmenter Sample F D → List Sample → Segmenter Sample F D × Option (UtteranceEvent Sample)
  accept_event s frame =
      let s' = record s { pending = s.pending ++ frame } in
      if is_nil frame then (s, none) else drain (length s'.pending) s'

  -- `accept`: only an endpoint's utterance is passed on
  unfoldable pub endpoint_only : Option (UtteranceEvent Sample) → Option (DetectedUtterance Sample)
  endpoint_only (some (endpoint utterance)) = some utterance
  endpoint_only _ = none

  unfoldable pub accept :
      Segmenter Sample F D → List Sample → Segmenter Sample F D × Option (DetectedUtterance Sample)
  unfolding endpoint_only
  accept s frame = let (s', event) = accept_event s frame in (s', endpoint_only event)
