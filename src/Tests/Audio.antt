-- ===== src/Tests/Audio.antt =====
-- Runs of the phrase spotter and of the playback queue.
use reframe_web.Prelude.{
  ℕ, ◌+◌, ◌-◌, ◌*◌, ◌≤◌, min, max, ◌≡◌, refl, true, List, [], ◌∷◌, ◌++◌, length, take, drop, concat,
  replicate,
}
use reframe_web.Keyphrases.Spotter.{
  Buffer, create_buffer, create, replay_frames, confirmation_frames, confirmation_start,
}
use reframe_web.Keyphrases.Spotter.Window.{IsWindow, append_all, buffer-IsWindow}
use reframe_web.Keyphrases.Spotter.Replay.{replay_frames_audio, confirmation_frames_audio}
use reframe_web.Keyphrases.Spotter.Once.{Use, hears, checks, closes, detections, detects_once}
use reframe_web.Speech.Playback
use reframe_web.Speech.Playback.{Output, callback, enqueue}
use reframe_web.Speech.Playback.Queue.{
  IsCounted, callback_conserves, create-IsCounted, enqueue-IsCounted,
}
use reframe_web.Tests.Fixtures.{keen_decoder, jarvis}

abbrev heard : List (List ℕ)
heard =
    (1 ∷ 2 ∷ 3 ∷ 4 ∷ 5 ∷ 6 ∷ 7 ∷ 8 ∷ 9 ∷ 10 ∷ [])
    ∷ (11 ∷ 12 ∷ 13 ∷ 14 ∷ 15 ∷ 16 ∷ 17 ∷ 18 ∷ [])
    ∷ []

abbrev buffer : Buffer ℕ
buffer = append_all (create_buffer 1) heard

buffer-IsWindow_example :
    IsWindow (concat heard) buffer
    × (concat buffer.frames
        ≡ drop (length (concat heard) - buffer.max_buffer_samples) (concat heard))
buffer-IsWindow_example = buffer-IsWindow 1 heard

replay_frames_audio_example :
    concat (replay_frames buffer jarvis 0) ≡ drop (buffer.buffer_start_sample + 3) (concat heard)
replay_frames_audio_example =
    replay_frames_audio (concat heard) buffer jarvis 3 0 (buffer-IsWindow 1 heard).0 refl

confirmation_frames_audio_example :
    (concat (confirmation_frames buffer jarvis 1)
      ≡ take
          (3 - confirmation_start 1 3 1)
          (drop (buffer.buffer_start_sample + confirmation_start 1 3 1) (concat heard)))
    × (3 - confirmation_start 1 3 1 ≤ max 1 (16 * 1))
    × (1 ≤ confirmation_start 1 3 1)
confirmation_frames_audio_example =
    confirmation_frames_audio (concat heard) buffer jarvis 1 3 1 (buffer-IsWindow 1 heard).0 refl
      refl

abbrev uses : List (Use ℕ)
uses = hears (1 ∷ 2 ∷ []) ∷ checks true ∷ hears (3 ∷ []) ∷ checks true ∷ closes ∷ []

detects_once_example : length (detections keen_decoder (create keen_decoder 1 10) uses) ≤ 1
detects_once_example = detects_once keen_decoder (create keen_decoder 1 10) uses

abbrev output : Output ℕ
output = (enqueue (enqueue (Playback.create 4) (5 ∷ 6 ∷ 7 ∷ [])).0 (8 ∷ [])).0

output-IsCounted : IsCounted output
output-IsCounted =
    enqueue-IsCounted (enqueue (Playback.create 4) (5 ∷ 6 ∷ 7 ∷ [])).0 (8 ∷ [])
      (enqueue-IsCounted (Playback.create 4) (5 ∷ 6 ∷ 7 ∷ []) (create-IsCounted 4))

callback_conserves_example :
    let played : List ℕ = take (min 2 output.queued_samples) (concat output.chunks) in
    let after : Output ℕ = (callback 0 2 output).1 in
    ((callback 0 2 output).0 ≡ played ++ replicate (2 - output.queued_samples) 0)
    × (length (callback 0 2 output).0 ≡ 2)
    × (played ++ concat after.chunks ≡ concat output.chunks)
    × (after.played_samples ≡ output.played_samples + length played)
    × IsCounted after
callback_conserves_example = callback_conserves 0 2 output output-IsCounted
