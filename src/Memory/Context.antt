-- ===== src/Memory/Context.antt =====
-- retrieved_context.py of agent-host/src/reframe_memory: what a retrieval returns.
use Prim.Native.String.{String}
use reframe_web.Prelude.{Bool, List}
use reframe_web.Memory.Nodes.{
  MemoryNode, TaskContent, SessionContent, ConversationContent, MessageContent,
  SessionMemoryContent,
}

-- `RetrievedConversation`
pub record RetrievedConversation : Type 0 where
  pub conversation : MemoryNode ConversationContent
  pub matched : Bool
  pub messages : List (MemoryNode MessageContent)
  pub matched_message_ids : List String

-- `RetrievedSessionContext`
pub record RetrievedSessionContext : Type 0 where
  pub session : MemoryNode SessionContent
  pub matched : Bool
  pub conversations : List RetrievedConversation
  pub session_memories : List (MemoryNode SessionMemoryContent)

-- `RetrievedMemoryContext`, with the lists of `RetrievedTaskCatalog` and of
-- `RetrievedPastConversationContext`
pub record RetrievedMemoryContext : Type 0 where
  pub tasks : List (MemoryNode TaskContent)
  pub sessions : List RetrievedSessionContext
  pub current_session_memories : List (MemoryNode SessionMemoryContent)
