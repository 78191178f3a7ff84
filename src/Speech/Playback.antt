-- ===== src/Speech/Playback.antt =====
-- playback.py of agent-host/src/reframe_agent_host/speech: the audio queue between the synthesizer
-- and the sound device. The lock makes each method one step.
pub mod Queue
use reframe_web.Prelude.{
  ℕ, zero, suc, ◌+◌, ◌-◌, ◌*◌, min, max, Bool, true, false, List, [], ◌∷◌, ◌++◌, ltb, leb, ◌==◌,
  if◌then◌else◌, length, take, drop, is_nil, replicate,
}

-- `QueuedAudioOutput`, without the device's stream
pub record Output (Sample : Type 0) : Type 0 where
  pub chunks : List (List Sample)
  pub queued_samples : ℕ
  pub played_samples : ℕ
  pub recent_samples : List Sample
  pub recent_sample_limit : ℕ

module _ {Sample : Type 0} where
  unfoldable pub create : ℕ → Output Sample
  create sample_rate = record {
    chunks = [];
    queued_samples = 0;
    played_samples = 0;
    recent_samples = [];
    recent_sample_limit = max 1 (sample_rate * 2);
  }

  -- `clear`
  unfoldable pub clear : Output Sample → Bool → Output Sample
  clear o reset_played_samples =
      let o' = record o { chunks = []; queued_samples = 0 } in
      if reset_played_samples then record o' { played_samples = 0; recent_samples = [] } else o'

  unfoldable pub enqueue : Output Sample → List Sample → Output Sample × ℕ
  enqueue o audio = if is_nil audio then (o, 0) else (
    record o { chunks = o.chunks ++ audio ∷ []; queued_samples = o.queued_samples + length audio },
    length audio,
  )

  -- The loop of `_callback`, with `left` samples to fill: those it fills, and the chunks left.
  unfoldable pub fill : ℕ → List (List Sample) → List Sample × List (List Sample)
  fill zero chunks = ([], chunks)
  fill (suc left) [] = ([], [])
  fill (suc left) (chunk ∷ chunks) =
      let (filled, rest) = fill (suc left - length chunk) chunks in
      if min (suc left) (length chunk) == length chunk
      then (chunk ++ filled, rest)
      else (take (suc left) chunk, drop (suc left) chunk ∷ chunks)

  -- `_append_recent_locked`; `a[-n:]` drops all but the last `n`
  abbrev pub append_recent : ℕ → List Sample → List Sample → List Sample
  append_recent limit recent samples =
      let all = recent ++ samples in
      if ltb limit (length all) then drop (length all - limit) all else all

  -- `_callback`, for a device that asks for `frames` samples: what it plays, and the output after
  unfoldable pub callback : Sample → ℕ → Output Sample → List Sample × Output Sample
  callback silence frames o =
      let (filled, rest) = fill frames o.chunks in
      let output = filled ++ replicate (frames - length filled) silence in
      (
        output,
        record o {
          chunks = rest;
          queued_samples = o.queued_samples - length filled;
          played_samples = o.played_samples + length filled;
          recent_samples = append_recent o.recent_sample_limit o.recent_samples output;
        },
      )

  -- `recent_samples`, for a whole number of samples
  abbrev pub recent : Output Sample → ℕ → List Sample
  recent o sample_count = drop (length o.recent_samples - sample_count) o.recent_samples
