-- ===== src/Memory/Retrieval.antt =====
-- graph_retrieval.py of agent-host/src/reframe_memory: `GraphMemoryRetriever`, which reads the nodes
-- that match a turn's hints and marks what it returns as read. A database has `mark_record_ids_read`
-- and the `mark_read` argument, so the fallbacks for one without them are left out; its record ids are
-- well formed.
pub mod Picks
pub mod Sound
pub mod Reads
use Prim.Native.String.{String}
use text.Mathlib.Text.{◌==◌}
use reframe_web.Prelude.{
  ℕ, Bool, true, false, not, ◌&&◌, ◌||◌, Option, none, some, List, [], ◌∷◌, ◌++◌, map, is_nil,
  if◌then◌else◌,
}
use reframe_web.Memory.Nodes.{
  DateTime, MemoryNode, SessionContent, ConversationContent, MessageContent, SessionMemoryContent,
  TaskContent, Database, Marks, fetch, mark_record_ids_read, mark_records_read,
}
use reframe_web.Memory.Terms.{
  TimestampBreadth, GraphSearchHints, candidate_matches, task_values, session_values,
  conversation_values, message_values, memory_values,
}
use reframe_web.Memory.Context.{
  RetrievedConversation, RetrievedSessionContext, RetrievedMemoryContext,
}

-- `GraphRetrievalRequest`, with the depths of the two domains
pub record GraphRetrievalRequest : Type 0 where
  pub hints : GraphSearchHints
  pub task_catalog : Option TimestampBreadth
  pub past_conversation_context : Option TimestampBreadth

unfoldable pub filter {ℓ} : {A : Type ℓ} → (A → Bool) → List A → List A
filter p [] = []
filter p (x ∷ xs) = let rest = filter p xs in if p x then x ∷ rest else rest

abbrev pub ids : {Content : Type 0} → List (MemoryNode Content) → List String
ids nodes = map (λ node. node.id) nodes

abbrev pub consed : {B : Type 0} → Option B → List B → List B
consed none bs = bs
consed (some b) bs = b ∷ bs

-- A loop that appends what it finds at some of the elements
unfoldable pub collect :
    {A B : Type 0} → (A → Marks → Marks × Option B) → List A → Marks → Marks × List B
collect find_one [] marks = (marks, [])
collect find_one (a ∷ rest_of) marks =
    let (marks', found) = find_one a marks in
    let (marks'', rest) = collect find_one rest_of marks' in (marks'', consed found rest)

abbrev pub is_current : Option String → String → Bool
is_current none id = false
is_current (some current) id = id == current

module _ (lower : String → String) (clock : ℕ → DateTime) (db : Database) where
  -- `_task_catalog`
  unfoldable pub task_catalog :
      GraphSearchHints → Option TimestampBreadth → Marks → Marks × List (MemoryNode TaskContent)
  task_catalog hints none marks = (marks, [])
  task_catalog hints (some breadth) marks =
      let matched =
        filter (candidate_matches lower task_values hints breadth) (fetch marks db.tasks) in
      (mark_record_ids_read clock (ids matched) marks, matched)

  module _ (hints : GraphSearchHints) (breadth : TimestampBreadth) where
    -- `_message_candidates`
    unfoldable pub message_candidates :
        String → Marks → Marks × List (MemoryNode MessageContent) × List String
    message_candidates conversation_id marks =
        let messages = fetch marks (db.messages_of conversation_id) in
        let matched = filter (candidate_matches lower message_values hints breadth) messages in
        if is_nil matched
        then (marks, [], [])
        else (mark_record_ids_read clock (ids messages) marks, messages, ids matched)

    -- The body of the loop of `_conversation_contexts`
    unfoldable pub conversation_context :
        MemoryNode ConversationContent → Marks → Marks × Option RetrievedConversation
    conversation_context conversation marks =
        let matched = candidate_matches lower conversation_values hints breadth conversation in
        let (marks', messages, matched_ids) = message_candidates conversation.id marks in
        if matched || not (is_nil messages)
        then (
          mark_record_ids_read clock (conversation.id ∷ []) marks',
          some (record {
            conversation = conversation;
            matched = matched;
            messages = messages;
            matched_message_ids = matched_ids;
          }),
        )
        else (marks', none)

    -- `_conversation_contexts`
    unfoldable pub conversation_contexts : String → Marks → Marks × List RetrievedConversation
    conversation_contexts session_id marks =
        collect conversation_context (fetch marks (db.conversations_of session_id)) marks

    -- `_session_memory_candidates`
    unfoldable pub session_memory_candidates :
        String → Marks → Marks × List (MemoryNode SessionMemoryContent)
    session_memory_candidates session_id marks =
        let matched =
          filter (candidate_matches lower memory_values hints breadth)
            (fetch marks (db.memories_of session_id)) in
        (mark_record_ids_read clock (ids matched) marks, matched)

    -- `_session_context`
    unfoldable pub session_context :
        Option String → MemoryNode SessionContent → Marks → Marks × Option RetrievedSessionContext
    session_context current session marks =
        let matched = candidate_matches lower session_values hints breadth session in
        let (marks1, conversations) = conversation_contexts session.id marks in
        let (marks2, memories) =
          if is_current current session.id
          then (marks1, [])
          else session_memory_candidates session.id marks1 in
        if not matched && (is_nil conversations && is_nil memories) then (marks2, none) else (
          mark_record_ids_read clock (session.id ∷ []) marks2,
          some (record {
            session = session;
            matched = matched;
            conversations = conversations;
            session_memories = memories;
          }),
        )

  -- `_past_conversation_context`
  unfoldable pub past_conversation_context :
      Option String
      → GraphSearchHints
      → Option TimestampBreadth
      → Marks
      → Marks × List RetrievedSessionContext
  past_conversation_context current hints none marks = (marks, [])
  past_conversation_context current hints (some breadth) marks =
      collect (session_context hints breadth current) (fetch marks db.sessions) marks

  -- `_current_session_memories`
  unfoldable pub current_session_memories :
      Option String → Marks → Marks × List (MemoryNode SessionMemoryContent)
  current_session_memories none marks = (marks, [])
  current_session_memories (some current) marks =
      mark_records_read clock (fetch marks (db.memories_of current)) marks

  -- `retrieve`
  unfoldable pub retrieve :
      Option String → GraphRetrievalRequest → Marks → Marks × RetrievedMemoryContext
  retrieve current request marks =
      let (marks1, tasks) = task_catalog request.hints request.task_catalog marks in
      let (marks2, sessions) =
        past_conversation_context current request.hints request.past_conversation_context marks1 in
      let (marks3, memories) = current_session_memories current marks2 in
      (marks3, record { tasks = tasks; sessions = sessions; current_session_memories = memories })
