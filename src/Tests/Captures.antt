-- ===== src/Tests/Captures.antt =====
-- Runs of the capture of a single turn and of the barge-in detector.
use reframe_web.Prelude.{ℕ, ◌+◌, ◌≤◌, some, is_some, ◌≡◌, refl, Bool, true, false, List, [], ◌∷◌}
use reframe_web.Voice.Segmenter
use reframe_web.Voice.Mode.{ConversationMode, wake_command, continuous_conversation}
use reframe_web.Voice.BargeIn
use reframe_web.Voice.BargeIn.{BargeIn, BargeInCalls}
use reframe_web.Voice.BargeIn.Once.{interruptions, silences, interrupts_once}
use reframe_web.Voice.TurnCapture.{AudioFrame, Ended, captured, raised}
use reframe_web.Voice.TurnCapture
use reframe_web.Voice.TurnCapture.Routes.{Sound}
use reframe_web.Voice.TurnCapture.Sound.{capture-Sound}
use reframe_web.Voice.Vad.{EnergyDetector, round_div, accept_energy}
use reframe_web.Keyphrases.Spotter.{PhraseSpotter, spotter}
use reframe_web.Voice.Capture.{
  Spotter, create_state, listen_timed_out, accept_speech_frame, note_recording,
  activation_window_expired,
}
use reframe_web.Tests.Fixtures.{
  pipeline, deaf_spotter, keen_decoder, detect, silent_detector, voice_config,
}

abbrev frame : List ℕ → ℕ → AudioFrame ℕ
frame samples now = record { samples = samples; stopped = false; now = now }

-- Speech, and silence until it has ended
abbrev frames : List (AudioFrame ℕ)
frames =
    frame (9 ∷ 9 ∷ []) 1
    ∷ frame (9 ∷ 8 ∷ []) 2
    ∷ frame (0 ∷ 0 ∷ []) 3
    ∷ frame (0 ∷ 0 ∷ []) 4
    ∷ frame (0 ∷ 0 ∷ []) 5
    ∷ frame (0 ∷ 0 ∷ []) 60
    ∷ []

abbrev captures :
    Spotter ℕ (PhraseSpotter ℕ (Unit {0})) → ConversationMode → List (AudioFrame ℕ) → Ended ℕ
captures spotting mode heard_frames =
    TurnCapture.capture spotting detect pipeline (Segmenter.create silent_detector voice_config)
      mode 0 heard_frames false

-- One that hears the wake phrase in the first frame
abbrev keen_spotter : Spotter ℕ (PhraseSpotter ℕ (Unit {0}))
keen_spotter = spotter keen_decoder 1 10

abbrev has_captured : Ended ℕ → Bool
has_captured (captured r) = true
has_captured (raised e) = false

abbrev has_keyphrase : Ended ℕ → Bool
has_keyphrase (captured r) = is_some r.keyphrase_detection
has_keyphrase (raised e) = false

-- In the wake-command mode the speech after the wake phrase is captured, with the keyphrase.
woken_lem : has_keyphrase (captures keen_spotter wake_command frames) ≡ true
unfolding TurnCapture.capture TurnCapture.capture_frames TurnCapture.capture_step
    TurnCapture.after_frame TurnCapture.accept_frame TurnCapture.begin create_state
    reframe_web.Voice.Capture.gate_start TurnCapture.accept_keyphrase_frame
    TurnCapture.accept_gate_result reframe_web.Voice.Capture.gate_accept spotter
    reframe_web.Keyphrases.Spotter.detect reframe_web.Keyphrases.Spotter.append
    reframe_web.Keyphrases.Spotter.create reframe_web.Keyphrases.Spotter.append_frame
    reframe_web.Keyphrases.Spotter.trim_front reframe_web.Keyphrases.Spotter.close
    reframe_web.Keyphrases.Spotter.confirmation_frames reframe_web.Keyphrases.Spotter.confirmed_span
    reframe_web.Keyphrases.Spotter.create_buffer reframe_web.Keyphrases.Spotter.replay_frames
    reframe_web.Keyphrases.Spotter.trim_between reframe_web.Keyphrases.Spotter.trim_from
    reframe_web.Keyphrases.Spotter.trim_loop accept_speech_frame activation_window_expired
    reframe_web.Voice.Capture.finish_confirmation reframe_web.Voice.Capture.finish_mode_switch
    reframe_web.Voice.Capture.finish_with_utterance reframe_web.Voice.Capture.gate_detected
    reframe_web.Voice.Capture.gate_frames reframe_web.Voice.Capture.gate_listen listen_timed_out
    note_recording reframe_web.Voice.Capture.replay_wake_audio Segmenter.accept
    Segmenter.accept_after_start Segmenter.accept_before_start Segmenter.accept_chunk
    Segmenter.accept_event Segmenter.after_decision Segmenter.build_utterance
    Segmenter.count_silence Segmenter.drain Segmenter.endpoint_event Segmenter.endpoint_of
    Segmenter.endpoint_only Segmenter.push_bounded Segmenter.reset TurnCapture.accept_utterance
    TurnCapture.accept_utterance_frame TurnCapture.finish_utterance round_div accept_energy
    Segmenter.create
woken_lem = refl

capture-Sound_example : Sound wake_command (captures keen_spotter wake_command frames)
capture-Sound_example =
    capture-Sound keen_spotter detect pipeline (Segmenter.create silent_detector voice_config)
      wake_command 0 frames false

-- Without a wake phrase the speech is captured.
captured_lem : has_captured (captures deaf_spotter continuous_conversation frames) ≡ true
unfolding TurnCapture.capture TurnCapture.begin TurnCapture.capture_frames TurnCapture.capture_step
    TurnCapture.accept_frame TurnCapture.accept_utterance_frame TurnCapture.accept_utterance
    TurnCapture.after_frame create_state listen_timed_out accept_speech_frame note_recording
    activation_window_expired round_div accept_energy Segmenter.accept Segmenter.create
    Segmenter.accept_event Segmenter.drain Segmenter.accept_chunk Segmenter.accept_before_start
    Segmenter.accept_after_start Segmenter.after_decision Segmenter.push_bounded
    Segmenter.endpoint_event Segmenter.endpoint_of Segmenter.build_utterance
captured_lem = refl

-- Every voice looks human; the samples are counted in a detector that needs two of them.
abbrev barge_in_calls : BargeInCalls ℕ ℕ (EnergyDetector ℕ)
barge_in_calls = record {
  make_detector = some silent_detector;
  detect = detect;
  looks_like_human_speech = λ samples. true;
  looks_like_reference_audio = λ samples. false;
}

abbrev barge_in : BargeIn ℕ (EnergyDetector ℕ)
barge_in = BargeIn.create 4 500

abbrev heard : List (List ℕ × Bool)
heard = (9 ∷ 9 ∷ [], true) ∷ (9 ∷ 8 ∷ [], true) ∷ (0 ∷ [], false) ∷ (9 ∷ 9 ∷ [], true) ∷ []

interrupts_once_example :
    interruptions barge_in_calls barge_in heard ≤ silences barge_in_calls barge_in heard + 1
interrupts_once_example = interrupts_once barge_in_calls barge_in heard
