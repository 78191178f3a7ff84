-- ===== src/Voice/BargeIn.antt =====
-- barge_in.py of agent-host/src/reframe_agent_host/voice: `BargeInDetector`. Whether audio looks like
-- human speech, or like the reference audio, are arguments: they are computed on float arrays. So is the
-- detector that the factory makes, none where it raises.
pub mod Once
use reframe_web.Prelude.{
  ℕ, ◌+◌, ◌-◌, ◌*◌, ◌/◌, max, Bool, true, false, not, ◌&&◌, ◌||◌, ltb, leb, Option, none, some,
  List, [], ◌∷◌, ◌++◌, if◌then◌else◌, length, concat,
}
use reframe_web.Voice.Vad.{VoiceActivityDecision}

-- The detector is none until it is made.
pub record BargeIn (Sample D : Type 0) : Type 0 where
  pub detector : Option D
  pub disabled : Bool
  pub required_samples : ℕ
  pub voice_samples : ℕ
  pub voice_frames : List (List Sample)
  pub max_voice_samples : ℕ
  pub triggered : Bool

-- What the detector calls
pub record BargeInCalls (Sample F D : Type 0) : Type 0 where
  pub make_detector : Option D
  pub detect : D → List Sample → D × VoiceActivityDecision F
  pub looks_like_human_speech : List Sample → Bool
  pub looks_like_reference_audio : List Sample → Bool

-- `_is_voice`
abbrev pub is_voice : {F : Type 0} → VoiceActivityDecision F → Bool
is_voice decision = decision.started || decision.is_speech

-- The loop of `_append_voice_frame`
unfoldable pub drop_oldest : {Sample : Type 0} → ℕ → ℕ → List (List Sample) → ℕ × List (List Sample)
drop_oldest limit samples [] = (samples, [])
drop_oldest limit samples (frame ∷ frames) =
    let rest = drop_oldest limit (samples - length frame) frames in
    if ltb limit samples then rest else (samples, frame ∷ frames)

module _ {Sample D : Type 0} where
  -- `__init__`
  unfoldable pub create : ℕ → ℕ → BargeIn Sample D
  create sample_rate required_voice_ms = record {
    detector = none;
    disabled = false;
    required_samples = max 1 (sample_rate * required_voice_ms / 1000);
    voice_samples = 0;
    voice_frames = [];
    max_voice_samples = max 1 sample_rate;
    triggered = false;
  }

  -- `reset`
  unfoldable pub reset : BargeIn Sample D → BargeIn Sample D
  reset b = record b { voice_samples = 0; voice_frames = []; triggered = false }

  -- `_append_voice_frame`
  unfoldable pub append_voice_frame : BargeIn Sample D → List Sample → BargeIn Sample D
  append_voice_frame b frame =
      let (samples, frames) =
        drop_oldest b.max_voice_samples (b.voice_samples + length frame)
          (b.voice_frames ++ frame ∷ []) in
      record b { voice_samples = samples; voice_frames = frames }

module _ {Sample F D : Type 0} (calls : BargeInCalls Sample F D) where
  -- `_get_detector`, on the detector there is and the one that the factory makes
  unfoldable pub detector_or : BargeIn Sample D → Option D → Option D → BargeIn Sample D × Option D
  detector_or b (some d) made = (b, some d)
  detector_or b none (some d) = (record b { detector = some d }, some d)
  detector_or b none none = (record b { disabled = true }, none)

  unfoldable pub get_detector : BargeIn Sample D → BargeIn Sample D × Option D
  get_detector b = detector_or b b.detector calls.make_detector

  -- A voice frame that is not the reference audio
  unfoldable pub accept_voice : BargeIn Sample D → List Sample → BargeIn Sample D × Bool
  accept_voice b frame =
      let b' = append_voice_frame b frame in
      if not b'.triggered
        && (leb b'.required_samples b'.voice_samples
            && calls.looks_like_human_speech (concat b'.voice_frames))
      then (record b' { triggered = true }, true)
      else (b', false)

  unfoldable pub accept_decision :
      BargeIn Sample D → List Sample → VoiceActivityDecision F → BargeIn Sample D × Bool
  accept_decision b frame decision =
      if is_voice decision
      then (if calls.looks_like_reference_audio frame
          then (reset b, false)
          else accept_voice b frame)
      else if decision.ended || not decision.is_speech
      then (reset b, false)
      else (b, false)

  unfoldable pub accept_detected :
      List Sample → BargeIn Sample D × Option D → BargeIn Sample D × Bool
  accept_detected frame (b, none) = (b, false)
  accept_detected frame (b, some d) =
      let (d', decision) = calls.detect d frame in
      accept_decision (record b { detector = some d' }) frame decision

  -- `accept`
  unfoldable pub accept : BargeIn Sample D → List Sample → Bool → BargeIn Sample D × Bool
  accept b frame tts_active =
      if not tts_active
      then (reset b, false)
      else if b.disabled
      then (b, false)
      else accept_detected frame (get_detector b)
