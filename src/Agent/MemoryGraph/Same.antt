-- ===== src/Agent/MemoryGraph/Same.antt =====
-- The graph gives the same plain data as the memories themselves.
use Prim.Native.String.{String}
use reframe_web.Prelude.{◌≡◌, refl, ap, ◌∙◌, List, [], ◌∷◌, map}
use reframe_web.Memory.Nodes.{DateTime, MemoryNode, SessionMemoryContent}
use reframe_web.Memory.Context.{
  RetrievedConversation, RetrievedSessionContext, RetrievedMemoryContext,
}
use reframe_web.Memory.Dict.{
  Value, Values, cons, items, flag, dict, entry, empty, texts, values_of, node_to_dict,
  memory_content, message_content, task_content, conversation_to_dict, session_to_dict,
  context_to_dict,
}
use reframe_web.Agent.MemoryGraph.{
  timestamp_fields, task_node, session_node, conversation_node, message_node, memory_node,
  conversation_graph, session_graph, retrieved_memory_graph, conversation_namespace,
  session_namespace, from_graph, base_node, task_to_dict, named_to_dict, message_to_dict,
  session_memory_to_dict, conversation_entry, session_entry, to_dict,
}

-- A list is encoded the same way before and behind a map that keeps each encoding.
values_lem :
    {A B : Type 0} (f : A → Value) (g : B → Value) (h : A → B)
    → ((a : A) → g (h a) ≡ f a)
    → (xs : List A) → values_of g (map h xs) ≡ values_of f xs
values_lem f g h same [] = refl
values_lem f g h same (x ∷ xs) =
    ap (λ v. cons v (values_of g (map h xs))) (same x) ∙ ap (cons (f x)) (values_lem f g h same xs)

module _ (isoformat : DateTime → String) where
  memories_lem :
      (ms : List (MemoryNode SessionMemoryContent))
      → values_of session_memory_to_dict (map (memory_node isoformat) ms)
        ≡ values_of (node_to_dict isoformat memory_content) ms
  unfolding session_memory_to_dict memory_node node_to_dict base_node timestamp_fields
  memories_lem =
      values_lem (node_to_dict isoformat memory_content) session_memory_to_dict
        (memory_node isoformat) (λ m. refl)

  conversation_lem :
      (c : RetrievedConversation)
      → conversation_entry (conversation_namespace (conversation_graph isoformat c))
        ≡ conversation_to_dict isoformat c
  unfolding conversation_entry conversation_graph conversation_to_dict conversation_node
      named_to_dict message_to_dict message_node node_to_dict base_node timestamp_fields
  conversation_lem c =
      ap
        (λ messages. dict (
          entry "conversation" (named_to_dict (conversation_node isoformat c.conversation)) (
            entry "matched" (flag c.matched) (
              entry "messages" (items messages)
                (entry "matched_message_ids" (texts c.matched_message_ids) empty)))))
        (values_lem (node_to_dict isoformat message_content) message_to_dict
          (message_node isoformat) (λ m. refl) c.messages)

  conversations_lem :
      (cs : List RetrievedConversation)
      → values_of conversation_entry
          (map conversation_namespace (map (conversation_graph isoformat) cs))
        ≡ values_of (conversation_to_dict isoformat) cs
  conversations_lem [] = refl
  conversations_lem (c ∷ cs) =
      ap
        (λ v. cons v (
          values_of conversation_entry
            (map conversation_namespace (map (conversation_graph isoformat) cs))))
        (conversation_lem c)
      ∙ ap (cons (conversation_to_dict isoformat c)) (conversations_lem cs)

  session_lem :
      (s : RetrievedSessionContext)
      → session_entry (session_namespace (session_graph isoformat s)) ≡ session_to_dict isoformat s
  unfolding session_entry session_graph session_to_dict session_node named_to_dict node_to_dict
      base_node timestamp_fields
  session_lem s =
      let encode : Values → Values → Value = λ conversations memories. dict (
        entry "session" (named_to_dict (session_node isoformat s.session)) (
          entry "matched" (flag s.matched) (
            entry "conversations" (items conversations)
              (entry "session_memories" (items memories) empty)))) in
      ap
        (λ cs.
          encode cs
            (values_of session_memory_to_dict (map (memory_node isoformat) s.session_memories)))
        (conversations_lem s.conversations)
      ∙ ap (encode (values_of (conversation_to_dict isoformat) s.conversations))
          (memories_lem s.session_memories)

  sessions_lem :
      (ss : List RetrievedSessionContext)
      → values_of session_entry (map session_namespace (map (session_graph isoformat) ss))
        ≡ values_of (session_to_dict isoformat) ss
  sessions_lem [] = refl
  sessions_lem (s ∷ ss) =
      ap
        (λ v.
          cons v
            (values_of session_entry (map session_namespace (map (session_graph isoformat) ss))))
        (session_lem s)
      ∙ ap (cons (session_to_dict isoformat s)) (sessions_lem ss)

  -- For every retrieved context, the dictionary that is made of its BAML graph is the dictionary that
  -- is made of the context itself.
  pub to_dict-from_graph :
      (m : RetrievedMemoryContext)
      → to_dict (from_graph (retrieved_memory_graph isoformat m)) ≡ context_to_dict isoformat m
  unfolding to_dict from_graph retrieved_memory_graph context_to_dict task_to_dict task_node
      node_to_dict base_node timestamp_fields
  to_dict-from_graph m =
      let encode : Values → Values → Values → Value = λ tasks sessions memories. dict (
        entry "task_catalog" (dict (entry "tasks" (items tasks) empty)) (
          entry "past_conversation_context" (dict (entry "sessions" (items sessions) empty))
            (entry "current_session_memories" (items memories) empty))) in
      let tasks : Values = values_of (node_to_dict isoformat task_content) m.tasks in
      let sessions : Values = values_of (session_to_dict isoformat) m.sessions in
      let old_sessions : Values =
        values_of session_entry
          (map session_namespace (map (session_graph isoformat) m.sessions)) in
      let old_memories : Values =
        values_of session_memory_to_dict (map (memory_node isoformat) m.current_session_memories) in
      ap (λ ts. encode ts old_sessions old_memories)
        (values_lem (node_to_dict isoformat task_content) task_to_dict (task_node isoformat)
          (λ t. refl) m.tasks)
      ∙ ap (λ ss. encode tasks ss old_memories) (sessions_lem m.sessions)
      ∙ ap (encode tasks sessions) (memories_lem m.current_session_memories)
