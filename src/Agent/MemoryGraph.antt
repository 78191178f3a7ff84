-- ===== src/Agent/MemoryGraph.antt =====
-- retrieved_memory_graph.py and timestamps.py of agent-host/src/reframe_agent_host/agent_flow: the
-- retrieved memories as the typed graph that BAML functions take, and that graph as plain data.
pub mod Same
use Prim.Native.String.{String}
use reframe_web.Prelude.{Bool, List, map}
use reframe_web.Memory.Nodes.{
  DateTime, MemoryTimestamps, MemoryNode, TaskContent, SessionContent, ConversationContent,
  MessageContent, SessionMemoryContent,
}
use reframe_web.Memory.Context.{
  RetrievedConversation, RetrievedSessionContext, RetrievedMemoryContext,
}
use reframe_web.Memory.Dict.{Value, text, flag, dict, empty, entry, list_of, texts, read_text}

-- `timestamp_fields`
pub record TimestampFields : Type 0 where
  pub created_at : String
  pub updated_at : String
  pub read_at : String

pub record RetrievedTaskNode : Type 0 where
  pub id : String
  pub name : String
  pub description : String
  pub input : String
  pub output : String
  pub prompt : String
  pub provider_id : String
  pub tags : List String
  pub times : TimestampFields

-- `RetrievedSessionNode` and `RetrievedConversationNode`
pub record RetrievedNamedNode : Type 0 where
  pub id : String
  pub name : String
  pub tags : List String
  pub times : TimestampFields

pub record RetrievedConversationMessageNode : Type 0 where
  pub id : String
  pub role : String
  pub content : String
  pub tags : List String
  pub times : TimestampFields

pub record RetrievedSessionMemoryNode : Type 0 where
  pub id : String
  pub title : String
  pub description : String
  pub tags : List String
  pub times : TimestampFields

pub record RetrievedConversationGraph : Type 0 where
  pub conversation : RetrievedNamedNode
  pub matched : Bool
  pub messages : List RetrievedConversationMessageNode
  pub matched_message_ids : List String

pub record RetrievedSessionGraph : Type 0 where
  pub session : RetrievedNamedNode
  pub matched : Bool
  pub conversations : List RetrievedConversationGraph
  pub session_memories : List RetrievedSessionMemoryNode

pub record RetrievedMemoryGraph : Type 0 where
  pub task_catalog : List RetrievedTaskNode
  pub past_sessions : List RetrievedSessionGraph
  pub current_session_memories : List RetrievedSessionMemoryNode

module _ (isoformat : DateTime → String) where
  unfoldable pub timestamp_fields : MemoryTimestamps → TimestampFields
  timestamp_fields times = record {
    created_at = isoformat times.created_at;
    updated_at = isoformat times.updated_at;
    read_at = read_text isoformat times.read_at;
  }

  unfoldable pub task_node : MemoryNode TaskContent → RetrievedTaskNode
  task_node task = record {
    id = task.id;
    name = task.content.name;
    description = task.content.description;
    input = task.content.input;
    output = task.content.output;
    prompt = task.content.prompt;
    provider_id = task.content.provider_id;
    tags = task.tags;
    times = timestamp_fields task.timestamps;
  }

  unfoldable pub session_node : MemoryNode SessionContent → RetrievedNamedNode
  session_node session = record {
    id = session.id;
    name = session.content.name;
    tags = session.tags;
    times = timestamp_fields session.timestamps;
  }

  unfoldable pub conversation_node : MemoryNode ConversationContent → RetrievedNamedNode
  conversation_node conversation = record {
    id = conversation.id;
    name = conversation.content.name;
    tags = conversation.tags;
    times = timestamp_fields conversation.timestamps;
  }

  unfoldable pub message_node : MemoryNode MessageContent → RetrievedConversationMessageNode
  message_node message = record {
    id = message.id;
    role = message.content.role;
    content = message.content.content;
    tags = message.tags;
    times = timestamp_fields message.timestamps;
  }

  unfoldable pub memory_node : MemoryNode SessionMemoryContent → RetrievedSessionMemoryNode
  memory_node memory = record {
    id = memory.id;
    title = memory.content.title;
    description = memory.content.description;
    tags = memory.tags;
    times = timestamp_fields memory.timestamps;
  }

  unfoldable pub conversation_graph : RetrievedConversation → RetrievedConversationGraph
  conversation_graph c = record {
    conversation = conversation_node c.conversation;
    matched = c.matched;
    messages = map message_node c.messages;
    matched_message_ids = c.matched_message_ids;
  }

  unfoldable pub session_graph : RetrievedSessionContext → RetrievedSessionGraph
  session_graph s = record {
    session = session_node s.session;
    matched = s.matched;
    conversations = map conversation_graph s.conversations;
    session_memories = map memory_node s.session_memories;
  }

  -- `retrieved_memory_graph`
  unfoldable pub retrieved_memory_graph : RetrievedMemoryContext → RetrievedMemoryGraph
  retrieved_memory_graph m = record {
    task_catalog = map task_node m.tasks;
    past_sessions = map session_graph m.sessions;
    current_session_memories = map memory_node m.current_session_memories;
  }

-- `BamlRetrievedMemoryContext`, with the lists of its namespaces, whose fields are those of the graph's
-- nodes
pub record BamlRetrievedMemoryContext : Type 0 where
  pub tasks : List RetrievedTaskNode
  pub sessions : List RetrievedSessionGraph
  pub current_session_memories : List RetrievedSessionMemoryNode

abbrev conversation_namespace : RetrievedConversationGraph → RetrievedConversationGraph
conversation_namespace c = record {
  conversation = c.conversation;
  matched = c.matched;
  messages = c.messages;
  matched_message_ids = c.matched_message_ids;
}

abbrev session_namespace : RetrievedSessionGraph → RetrievedSessionGraph
session_namespace s = record {
  session = s.session;
  matched = s.matched;
  conversations = map conversation_namespace s.conversations;
  session_memories = s.session_memories;
}

-- `from_graph`
unfoldable pub from_graph : RetrievedMemoryGraph → BamlRetrievedMemoryContext
from_graph g = record {
  tasks = g.task_catalog;
  sessions = map session_namespace g.past_sessions;
  current_session_memories = g.current_session_memories;
}

-- `_base_node`
unfoldable pub base_node : String → List String → TimestampFields → Value → Value
base_node id tags times content = dict (
    entry "id" (text id) (
      entry "tags" (texts tags) (
        entry "created_at" (text times.created_at) (
          entry "updated_at" (text times.updated_at)
            (entry "read_at" (text times.read_at) (entry "content" content empty))))))

-- `_task_to_dict`
unfoldable pub task_to_dict : RetrievedTaskNode → Value
task_to_dict t = base_node t.id t.tags t.times (
    dict (
      entry "name" (text t.name) (
        entry "description" (text t.description) (
          entry "input" (text t.input) (
            entry "output" (text t.output)
              (entry "prompt" (text t.prompt) (entry "provider_id" (text t.provider_id) empty)))))))

-- `_session_to_dict` and `_conversation_to_dict`
unfoldable pub named_to_dict : RetrievedNamedNode → Value
named_to_dict n = base_node n.id n.tags n.times (dict (entry "name" (text n.name) empty))

-- `_message_to_dict`
unfoldable pub message_to_dict : RetrievedConversationMessageNode → Value
message_to_dict m =
    base_node m.id m.tags m.times
      (dict (entry "role" (text m.role) (entry "content" (text m.content) empty)))

-- `_session_memory_to_dict`
unfoldable pub session_memory_to_dict : RetrievedSessionMemoryNode → Value
session_memory_to_dict m =
    base_node m.id m.tags m.times
      (dict (entry "title" (text m.title) (entry "description" (text m.description) empty)))

unfoldable pub conversation_entry : RetrievedConversationGraph → Value
conversation_entry c = dict (
    entry "conversation" (named_to_dict c.conversation) (
      entry "matched" (flag c.matched) (
        entry "messages" (list_of message_to_dict c.messages)
          (entry "matched_message_ids" (texts c.matched_message_ids) empty))))

unfoldable pub session_entry : RetrievedSessionGraph → Value
session_entry s = dict (
    entry "session" (named_to_dict s.session) (
      entry "matched" (flag s.matched) (
        entry "conversations" (list_of conversation_entry s.conversations)
          (entry "session_memories" (list_of session_memory_to_dict s.session_memories) empty))))

-- `BamlRetrievedMemoryContext.to_dict`
unfoldable pub to_dict : BamlRetrievedMemoryContext → Value
to_dict m = dict (
    entry "task_catalog" (dict (entry "tasks" (list_of task_to_dict m.tasks) empty)) (
      entry "past_conversation_context"
        (dict (entry "sessions" (list_of session_entry m.sessions) empty))
        (entry "current_session_memories"
          (list_of session_memory_to_dict m.current_session_memories) empty)))
