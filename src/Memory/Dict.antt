-- ===== src/Memory/Dict.antt =====
-- `to_dict` of retrieved_context.py in agent-host/src/reframe_memory: a retrieved context as plain
-- data. `isoformat` is an argument.
use Prim.Native.String.{String}
use reframe_web.Prelude.{Bool, Option, none, some, List, [], ◌∷◌}
use reframe_web.Memory.Nodes.{
  DateTime, MemoryNode, TaskContent, SessionContent, ConversationContent, MessageContent,
  SessionMemoryContent,
}
use reframe_web.Memory.Context.{
  RetrievedConversation, RetrievedSessionContext, RetrievedMemoryContext,
}

-- Texts, flags, lists, and dictionaries in the order of their keys
mutual
  pub data Value : Type 0 where
    text : String → Value
    flag : Bool → Value
    items : Values → Value
    dict : Entries → Value

  pub data Values : Type 0 where
    nil : Values
    cons : Value → Values → Values

  pub data Entries : Type 0 where
    empty : Entries
    entry : String → Value → Entries → Entries

abbrev pub values_of {ℓ} : {A : Type ℓ} → (A → Value) → List A → Values
values_of f [] = nil
values_of f (x ∷ xs) = cons (f x) (values_of f xs)

abbrev pub list_of {ℓ} : {A : Type ℓ} → (A → Value) → List A → Value
list_of f xs = items (values_of f xs)

abbrev pub texts : List String → Value
texts ts = list_of text ts

-- `asdict` of the contents
abbrev pub task_content : TaskContent → Value
task_content t = dict (
    entry "name" (text t.name) (
      entry "description" (text t.description) (
        entry "input" (text t.input) (
          entry "output" (text t.output)
            (entry "prompt" (text t.prompt) (entry "provider_id" (text t.provider_id) empty))))))

abbrev pub session_content : SessionContent → Value
session_content s = dict (entry "name" (text s.name) empty)

abbrev pub conversation_content : ConversationContent → Value
conversation_content c = dict (entry "name" (text c.name) empty)

abbrev pub message_content : MessageContent → Value
message_content m = dict (entry "role" (text m.role) (entry "content" (text m.content) empty))

abbrev pub memory_content : SessionMemoryContent → Value
memory_content m =
    dict (entry "title" (text m.title) (entry "description" (text m.description) empty))

module _ (isoformat : DateTime → String) where
  abbrev pub read_text : Option DateTime → String
  read_text none = "NONE"
  read_text (some time) = isoformat time

  -- `_node_to_dict`
  unfoldable pub node_to_dict : {Content : Type 0} → (Content → Value) → MemoryNode Content → Value
  node_to_dict content node = dict (
      entry "id" (text node.id) (
        entry "tags" (texts node.tags) (
          entry "created_at" (text (isoformat node.timestamps.created_at)) (
            entry "updated_at" (text (isoformat node.timestamps.updated_at)) (
              entry "read_at" (text (read_text node.timestamps.read_at))
                (entry "content" (content node.content) empty))))))

  -- `RetrievedConversation.to_dict`
  unfoldable pub conversation_to_dict : RetrievedConversation → Value
  conversation_to_dict c = dict (
      entry "conversation" (node_to_dict conversation_content c.conversation) (
        entry "matched" (flag c.matched) (
          entry "messages" (list_of (node_to_dict message_content) c.messages)
            (entry "matched_message_ids" (texts c.matched_message_ids) empty))))

  -- `RetrievedSessionContext.to_dict`
  unfoldable pub session_to_dict : RetrievedSessionContext → Value
  session_to_dict s = dict (
      entry "session" (node_to_dict session_content s.session) (
        entry "matched" (flag s.matched) (
          entry "conversations" (list_of conversation_to_dict s.conversations) (
            entry "session_memories" (list_of (node_to_dict memory_content) s.session_memories)
              empty))))

  -- `RetrievedMemoryContext.to_dict`
  unfoldable pub context_to_dict : RetrievedMemoryContext → Value
  context_to_dict m = dict (
      entry "task_catalog"
        (dict (entry "tasks" (list_of (node_to_dict task_content) m.tasks) empty))
        (entry "past_conversation_context"
          (dict (entry "sessions" (list_of session_to_dict m.sessions) empty))
          (entry "current_session_memories"
            (list_of (node_to_dict memory_content) m.current_session_memories) empty)))
