-- ===== src/Tests/Memory.antt =====
-- Runs of a retrieval and of its graph.
use Prim.Native.String.{String}
use text.Mathlib.Text.{◌==◌}
use reframe_web.Prelude.{ℕ, zero, suc, ◌≡◌, refl, false, none, some, [], ◌∷◌, map, if◌then◌else◌}
use reframe_web.Memory.Search.{
  MemoryNodeSearch, built, ◌⧺◌, is_path, clean_content_fields, add_content,
  add_string_search_clause, build_memory_node_where,
}
use reframe_web.Memory.Search.Shape.{sql_of, build_memory_node_where-same}
use reframe_web.Memory.Nodes.{
  DateTime, naive, east, aware, MemoryTimestamps, MemoryNode, Database, Marks, last_mark, seen, mem,
  dedup_after, mark_each, mark_record_ids_read, mark_records_read,
}
use reframe_web.Memory.Terms.{
  TimestampBreadth, breadth_matches, any, intersects, matches_positive_string, has_positive_terms,
  hints_match, candidate_matches,
}
use reframe_web.Memory.Context.{RetrievedMemoryContext}
use reframe_web.Memory.Dict.{context_to_dict}
use reframe_web.Memory.Retrieval.{
  GraphRetrievalRequest, filter, collect, task_catalog, message_candidates, conversation_context,
  conversation_contexts, session_memory_candidates, session_context, past_conversation_context,
  current_session_memories, retrieve,
}
use reframe_web.Memory.Retrieval.Reads.{IsRetrieved, retrieve-IsRetrieved}
use reframe_web.Agent.MemoryGraph.{retrieved_memory_graph, from_graph, to_dict}
use reframe_web.Agent.MemoryGraph.Same.{to_dict-from_graph}

abbrev at : ℕ → DateTime
at n = record { local = n; zone = naive }

-- A zone ahead of UTC
aware_lem : aware (record { local = 90; zone = east 60 }) ≡ 30
unfolding aware
aware_lem = refl

abbrev times : MemoryTimestamps
times = record { created_at = at 10; updated_at = at 20; read_at = none }

abbrev node : {Content : Type 0} → String → Content → MemoryNode Content
node id content = record { id = id; tags = []; timestamps = times; content = content }

-- Two sessions, one of which has a conversation about tea
abbrev database : Database
database = record {
  tasks = [];
  sessions =
      node "memory_node:s1" (record { name = "monday" })
      ∷ node "memory_node:s2" (record { name = "tuesday" })
      ∷ [];
  conversations_of = λ id.
      if id == "memory_node:s1"
      then node "memory_node:c1" (record { name = "morning" }) ∷ []
      else [];
  messages_of = λ id.
      node "memory_node:m1" (record { role = "human"; content = "make tea" })
      ∷ node "memory_node:m2" (record { role = "agent"; content = "done" })
      ∷ [];
  memories_of = λ id. [];
}

abbrev everything : TimestampBreadth
everything = record { created_after = 0; updated_after = 0; read_after = 0 }

abbrev request : GraphRetrievalRequest
request = record {
  hints = record {
    tags = record { any_of = []; all_of = []; none_of = [] };
    strings = record { contains = "tea" ∷ []; equals = [] };
  };
  task_catalog = some everything;
  past_conversation_context = some everything;
}

abbrev same : String → String
same text = text

abbrev retrieved : Marks × RetrievedMemoryContext
retrieved = retrieve same at database (some "memory_node:s2") request []

-- The whole conversation was read, and the session that it belongs to.
marked_lem :
    map (λ mark. mark.0) retrieved.0
    ≡ "memory_node:s1" ∷ "memory_node:c1" ∷ "memory_node:m2" ∷ "memory_node:m1" ∷ []
unfolding retrieve task_catalog past_conversation_context current_session_memories session_context
    session_memory_candidates conversation_contexts conversation_context message_candidates collect
    filter candidate_matches hints_match has_positive_terms matches_positive_string intersects any
    breadth_matches aware mark_record_ids_read mark_records_read mark_each dedup_after mem seen
    last_mark
marked_lem = refl

retrieve-IsRetrieved_example :
    IsRetrieved same at database (some "memory_node:s2") request [] retrieved
retrieve-IsRetrieved_example =
    retrieve-IsRetrieved same at database (some "memory_node:s2") request []

abbrev formatted : DateTime → String
formatted time = "1970-01-01T00:00:00+00:00"

to_dict-from_graph_example :
    to_dict (from_graph (retrieved_memory_graph formatted retrieved.1))
    ≡ context_to_dict formatted retrieved.1
to_dict-from_graph_example = to_dict-from_graph formatted retrieved.1

-- Searches for a word in a field, and with a tag
abbrev about : String → MemoryNodeSearch
about word = record {
  tags = record { any_of = "work" ∷ []; all_of = []; none_of = [] };
  strings = record { contains = word ∷ " " ∷ []; equals = [] };
  string_fields = "content" ∷ "title.text" ∷ [];
  content_contains = [];
  content_equals = record { field = "role"; terms = "human" ∷ [] } ∷ [];
}

abbrev digit : ℕ → String
digit zero = "0"
digit (suc n) = "1"

abbrev strip_blank : String → String
strip_blank s = if s == " " then "" else s

build_memory_node_where_lem :
    sql_of (build_memory_node_where strip_blank (λ s. s) digit (some (about "tea")))
    ≡ built (
        "WHERE array::len(array::intersect(tags, $tag_any_of)) > 0 AND "
        ⧺ "(string::contains(string::lowercase(<string>content.content), $string_contains_0_0) OR "
        ⧺ "string::contains(string::lowercase(<string>content.title.text), $string_contains_1_0)) AND "
        ⧺ "(content.role = $content_value_0_0)")
unfolding build_memory_node_where add_string_search_clause clean_content_fields add_content
build_memory_node_where_lem = refl

-- A path with a space is no field.
field_lem : is_path false "title text" ≡ false
field_lem = refl

build_memory_node_where-same_example :
    sql_of (build_memory_node_where strip_blank (λ s. s) digit (some (about "tea")))
    ≡ sql_of (build_memory_node_where strip_blank (λ s. s) digit (some (about "x) OR true --")))
build_memory_node_where-same_example =
    build_memory_node_where-same strip_blank (λ s. s) digit (about "tea") (about "x) OR true --")
      (record {
        any_of = refl;
        all_of = refl;
        none_of = refl;
        contains = refl;
        equals = refl;
        string_fields = refl;
        content_contains = tt;
        content_equals = ((refl, refl), tt);
      })
