-- ===== src/Lib.antt =====
-- A model of the agent host of ReframeWeb (agent-host/src/reframe_agent_host) and of what makes it
-- correct.
--
-- The program listens to a microphone, cuts the audio into utterances, waits for a wake phrase where
-- the conversation mode asks for one, and hands each captured turn to the agent. A turn is processed
-- speculatively while the speaker may still go on; it may act only once its endpoint is confirmed.
-- What the agent returns is dispatched as primitives: replies, thoughts, memories and the end of the
-- conversation, which the task history keeps. The
-- workspace client talks to a local daemon that projects filesystem memories into workspaces; what a
-- session commits there is published into the memory graph.
--
-- The parts and their files:
--   Voice/Vad          voice/vad_types.py, voice/vad_energy.py: `EnergyVoiceActivityDetector`. Floats
--                      are an argument with the two operations that the code uses.
--   Voice/Segmenter    voice/utterance_segmenter.py: `UtteranceSegmenter`, over any detector. Fields
--                      holds the invariant, Protocol the meaning of the events, Chunking the end of the
--                      loop.
--   Voice/Mode         voice/conversation_mode.py: `ConversationModeController`.
--   Voice/TurnControl  `VoiceTurnControl` of voice/capture_types.py, on a schedule of what other tasks
--                      do while a turn waits.
--   Voice/Capture      voice/capture_state.py, capture_setup.py, capture_results.py, capture_flow.py
--                      and keyphrase_gate.py: the state of one captured turn.
--   Voice/Session      voice/speculative_capture_session.py: the capture thread. `step` is one round of
--                      the loop of `run`, on the frame, the stop event, the clock and the modes that
--                      others set. Ledger is the specification of its events, Sound and Protocol carry
--                      it through a round, Runs through a run.
--   Voice/TurnCapture  voice/turn_capture.py and capture_frame_router.py: the capture of a single turn, on
--                      the parts of Voice/Capture.
--   Voice/BargeIn      voice/barge_in.py: `BargeInDetector`, over any detector and any tests of the audio.
--   Voice/TurnLoop     commands/voice_loop.py: the event loop that starts, cancels and commits turns.
--                      Commits puts the capture thread and the loop together.
--   Voice/TurnProcessor  voice/turn_processor.py: what a turn does, as a monad over the control, the
--                      schedule and the effects.
--   Keyphrases/Spotter keyphrases/pocketsphinx_phrase.py: the spotter's buffer, its detections and what
--                      is replayed of them. The PocketSphinx decoder is an argument.
--   Speech/Playback    speech/playback.py: `QueuedAudioOutput`.
--   Workspace/Transport  workspace/transport.py: frames on a byte stream, for any way in which the
--                      operating system splits, ends or fails the reads and writes.
--   Workspace/Operations workspace/protocol.py: the operations of the daemon and their metadata.
--   Workspace/Service  workspace/service.py: `WorkspaceDaemon._request`, on what its attempts meet. A
--                      request is one that `Transport` writes and reads as frames.
--   Workspace/Planning workspace/planning.py: `resolve_memory_sources`.
--   Workspace/Effects  the calls of the coordinator as functions on a shared state: each call has a number,
--                      and arguments say whether it works or raises, before or after its effect, and
--                      what a daemon that is started for it finds old enough to prune.
--                      Frames are the relations that a coroutine respects if its calls do.
--   Workspace/Outbox   the daemon's table of checkpoint publications
--                      (workspace-fs/crates/workspace-daemon/src/store), which the daemon prunes when it
--                      starts (retention.rs there), and the checkpoints of the graph
--                      (reframe_memory/filesystem_memories.py and filesystem_publication.py).
--   Workspace/Publication  workspace/publication_service.py: `CheckpointPublisher`, between the two.
--   Workspace/Plans    workspace/memory_service.py: `resolve_plan`, on Workspace/Planning.
--   Workspace/Coordinator  workspace/coordinator.py and execution.py: `WorkspaceCoordinator`.
--   Memory             reframe_memory, beside reframe_agent_host: Nodes are models.py and the marks of
--                      database.py, Terms is retrieval_terms.py, Context and Dict are
--                      retrieved_context.py, Retrieval is graph_retrieval.py as a function of the marks,
--                      Search is search.py, which makes the text of a query and its variables.
--   Agent/MemoryGraph  agent_flow/retrieved_memory_graph.py and timestamps.py: what was retrieved as the
--                      typed graph that BAML functions take.
--   Agent/LiveConversation  agent_flow/live_conversation.py: the messages of the running program and their
--                      merge with the persisted conversation.
--   Tasks/Payloads     task_execution/primitive_payloads.py: what a primitive reads of its payload. A text
--                      is a list of characters; `json.dumps` is an argument.
--   Tasks/Dispatch     task_execution/primitives.py: `PrimitiveDispatcher`, as a monad over its state and
--                      the journal of its effects; a write of the database may raise, and so may the
--                      callback of the mode.
--   Tests              runs on small inputs.
--
-- Numbers: samples are counted in ℕ; a duration that the code computes in float seconds is compared by
-- cross multiplication; a clock reading is a tick, read once a round. `x - y` of the code is ℕ's
-- subtraction only where the code clamps at 0 or y is never above x.
--
-- Loops: the segmenter's loop has as many rounds as pending samples, of which each round takes at least
-- one; the loops over frames, events, answers and rounds are structural; `resolve_memory_sources`
-- has fuel for its depth, and one more than the number of memories is enough. The coordinator takes it
-- from its environment, where it stands for Python's recursion limit.
--
-- Not modelled: neural networks and decoders (Silero, Whisper, Kokoro, PocketSphinx), the signal
-- processing on float arrays, the BAML functions and their generated SDK, the SurrealDB queries of
-- reframe_memory, which are lists of what they find (but for the text of searches and the transaction
-- that publishes a filesystem memory), the memory browser, benchmarks and command line, the Rust daemon
-- but for its table of publications, and everything that `on_event` only shows.
pub mod Prelude
pub mod Voice
pub mod Keyphrases
pub mod Speech
pub mod Workspace
pub mod Tasks
pub mod Memory
pub mod Agent
pub mod Tests
