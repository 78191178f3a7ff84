-- ===== src/Memory/Retrieval/Sound.antt =====
-- What a retrieval returns, and that it marks just that as read.
use Prim.Native.String.{String}
use reframe_web.Prelude.{
  ℕ, ◌≡◌, refl, sym, ap, subst, ◌∙◌, ◌⊎◌, inl, inr, Bool, true, false, not, ◌&&◌, ◌||◌, Option,
  none, some, List, [], ◌∷◌, ◌++◌, is_nil, if◌then◌else◌, if_ind,
}
use reframe_web.Memory.Nodes.{
  DateTime, MemoryNode, SessionContent, ConversationContent, MessageContent, SessionMemoryContent,
  Database, Marks, fetch, mem, dedup_after, dedup, mark_each, mark_each-append,
  mark_record_ids_read,
}
use reframe_web.Memory.Terms.{
  TimestampBreadth, GraphSearchHints, candidate_matches, session_values, conversation_values,
  message_values, memory_values,
}
use reframe_web.Memory.Context.{RetrievedConversation, RetrievedSessionContext}
use reframe_web.Memory.Retrieval.{
  filter, ids, is_current, message_candidates, conversation_context, conversation_contexts,
  session_memory_candidates, session_context,
}
use reframe_web.Memory.Retrieval.Picks.{Picks, reads_of, Finds, collect_lem}

is_nil_lem {ℓ} : {A : Type ℓ} (xs : List A) → is_nil xs ≡ true → xs ≡ []
is_nil_lem [] e = refl
is_nil_lem (x ∷ xs) e = absurd (cc e)

nor_lem : (a b : Bool) → (a || not b) ≡ false → (a ≡ false) × (b ≡ true)
nor_lem true b e = absurd (cc e)
nor_lem false true e = (refl, refl)
nor_lem false false e = absurd (cc e)

or_lem : (a b : Bool) → (a || not b) ≡ true → (a ≡ true) ⊎ (b ≡ false)
or_lem true b e = inl refl
or_lem false true e = absurd (cc e)
or_lem false false e = inr refl

and_lem : (a b c : Bool) → (not a && (b && c)) ≡ true → (a ≡ false) × (b ≡ true) × (c ≡ true)
and_lem true b c e = absurd (cc e)
and_lem false true true e = (refl, refl, refl)
and_lem false true false e = absurd (cc e)
and_lem false false c e = absurd (cc e)

nand_lem : (a b c : Bool) → (not a && (b && c)) ≡ false → (a ≡ true) ⊎ ((b ≡ false) ⊎ (c ≡ false))
nand_lem true b c e = inl refl
nand_lem false false c e = inr (inl refl)
nand_lem false true false e = inr (inr refl)
nand_lem false true true e = absurd (cc e)

-- The ids that are read for a conversation and for a session that are returned
abbrev pub conversation_reads : RetrievedConversation → List String
conversation_reads c = dedup (ids c.messages) ++ c.conversation.id ∷ []

abbrev pub session_reads : RetrievedSessionContext → List String
session_reads s =
    reads_of conversation_reads s.conversations
    ++ (dedup (ids s.session_memories) ++ s.session.id ∷ [])

module _ (lower : String → String) (clock : ℕ → DateTime) (db : Database) (hints : GraphSearchHints)
    (breadth : TimestampBreadth) (current : Option String) where
  abbrev matching : List (MemoryNode MessageContent) → List (MemoryNode MessageContent)
  matching messages = filter (candidate_matches lower message_values hints breadth) messages

  -- All messages of a conversation, as they are at the marks, if one of them matches, and the ids of
  -- those that do
  pub record HasMessages (conversation_id : String) (marks : Marks)
      (messages : List (MemoryNode MessageContent)) (matched_ids : List String) : Type 0 where
    pub all_or_none : messages ≡ (
        if is_nil (matching (fetch marks (db.messages_of conversation_id)))
        then []
        else fetch marks (db.messages_of conversation_id))
    pub matched : matched_ids ≡ ids (matching (fetch marks (db.messages_of conversation_id)))

  pub record SkipsConversation (conversation : MemoryNode ConversationContent) (marks : Marks)
      : Type 0 where
    pub unmatched : candidate_matches lower conversation_values hints breadth conversation ≡ false
    pub no_messages : HasMessages conversation.id marks [] []

  pub record TakesConversation (conversation : MemoryNode ConversationContent) (marks : Marks)
      (c : RetrievedConversation) : Type 0 where
    pub itself : c.conversation ≡ conversation
    pub matched : c.matched ≡ candidate_matches lower conversation_values hints breadth conversation
    pub with_messages : HasMessages conversation.id marks c.messages c.matched_message_ids
    pub reason : (c.matched ≡ true) ⊎ (is_nil c.messages ≡ false)

  -- The memories of a session that match, but none of the current session
  pub record HasMemories (session_id : String) (marks : Marks)
      (memories : List (MemoryNode SessionMemoryContent)) : Type 0 where
    pub matching : memories ≡ (
        if is_current current session_id
        then []
        else filter
            (candidate_matches lower memory_values hints breadth)
            (fetch marks (db.memories_of session_id)))

  pub record HasConversations (session_id : String) (marks : Marks)
      (conversations : List RetrievedConversation) : Type 0 where
    pub picks :
        Picks clock conversation_reads SkipsConversation TakesConversation marks
          (fetch marks (db.conversations_of session_id))
          conversations

  pub record SkipsSession (session : MemoryNode SessionContent) (marks : Marks) : Type 0 where
    pub unmatched : candidate_matches lower session_values hints breadth session ≡ false
    pub no_conversations : HasConversations session.id marks []
    pub no_memories : HasMemories session.id marks []

  pub record TakesSession (session : MemoryNode SessionContent) (marks : Marks)
      (s : RetrievedSessionContext) : Type 0 where
    pub itself : s.session ≡ session
    pub matched : s.matched ≡ candidate_matches lower session_values hints breadth session
    pub with_conversations : HasConversations session.id marks s.conversations
    pub with_memories :
        HasMemories session.id
          (mark_each clock (reads_of conversation_reads s.conversations) marks)
          s.session_memories
    pub reason :
        (s.matched ≡ true)
        ⊎ ((is_nil s.conversations ≡ false) ⊎ (is_nil s.session_memories ≡ false))

  abbrev Messages : String → Marks → Marks × List (MemoryNode MessageContent) × List String → Type 0
  Messages id marks (marks', messages, matched_ids) =
      (marks' ≡ mark_each clock (dedup (ids messages)) marks)
      × HasMessages id marks messages matched_ids
      × (messages ≡ [] → matched_ids ≡ [])

  messages_lem :
      (id : String) (marks : Marks)
      → Messages id marks (message_candidates lower clock db hints breadth id marks)
  unfolding message_candidates mark_each dedup_after mark_record_ids_read filter
  messages_lem id marks =
      let found : List (MemoryNode MessageContent) = fetch marks (db.messages_of id) in
      if_ind (Messages id marks) (is_nil (matching found)) (marks, [], [])
        (mark_record_ids_read clock (ids found) marks, found, ids (matching found))
        (λ e. (
          refl,
          record {
            all_or_none = sym (ap (λ b. if b then [] else found) e);
            matched = sym (ap ids (is_nil_lem (matching found) e));
          },
          λ _. refl,
        ))
        (λ e. (
          refl,
          record { all_or_none = sym (ap (λ b. if b then [] else found) e); matched = refl },
          λ n. ap (λ x. ids (matching x)) n,
        ))

  conversation_lem :
      (conversation : MemoryNode ConversationContent) (marks : Marks)
      → Finds clock conversation_reads SkipsConversation TakesConversation conversation marks
          (conversation_context lower clock db hints breadth conversation marks)
  unfolding conversation_context mark_each dedup_after mark_record_ids_read mem
  conversation_lem conversation marks =
      let F : Marks × Option RetrievedConversation → Type 0 =
        Finds clock conversation_reads SkipsConversation TakesConversation conversation marks in
      let cm : Bool = candidate_matches lower conversation_values hints breadth conversation in
      let x : Marks × List (MemoryNode MessageContent) × List String =
        message_candidates lower clock db hints breadth conversation.id marks in
      let (e, has, none_matched) = messages_lem conversation.id marks in
      let c : RetrievedConversation = record {
        conversation = conversation;
        matched = cm;
        messages = x.1;
        matched_message_ids = x.2;
      } in
      if_ind F (cm || not (is_nil x.1))
        (mark_record_ids_read clock (conversation.id ∷ []) x.0, some c) (x.0, none)
        (λ t. (
          ap (mark_each clock (conversation.id ∷ [])) e
              ∙ sym (mark_each-append clock (dedup (ids x.1)) (conversation.id ∷ []) marks),
          record {
            itself = refl;
            matched = refl;
            with_messages = has;
            reason = or_lem cm (is_nil x.1) t;
          },
        ))
        (λ t.
          let (unmatched, empty) = nor_lem cm (is_nil x.1) t in
          let nothing : x.1 ≡ [] = is_nil_lem x.1 empty in
          (
            e ∙ ap (λ ms. mark_each clock (dedup (ids ms)) marks) nothing,
            record {
              unmatched = unmatched;
              no_messages = record {
                all_or_none = sym nothing ∙ has.all_or_none;
                matched = sym (none_matched nothing) ∙ has.matched;
              };
            },
          ))

  abbrev Conversations : String → Marks → Marks × List RetrievedConversation → Type 0
  Conversations id marks (marks', conversations) =
      (marks' ≡ mark_each clock (reads_of conversation_reads conversations) marks)
      × HasConversations id marks conversations

  conversations_lem :
      (id : String) (marks : Marks)
      → Conversations id marks (conversation_contexts lower clock db hints breadth id marks)
  unfolding conversation_contexts
  conversations_lem id marks =
      let x =
        collect_lem clock conversation_reads SkipsConversation TakesConversation
          (conversation_context lower clock db hints breadth) conversation_lem
          (fetch marks (db.conversations_of id)) marks in
      (x.0, record { picks = x.1 })

  abbrev Memories : String → Marks → Marks × List (MemoryNode SessionMemoryContent) → Type 0
  Memories id marks (marks', memories) =
      (marks' ≡ mark_each clock (dedup (ids memories)) marks) × HasMemories id marks memories

  memories_lem :
      (id : String) (marks : Marks)
      → Memories id marks (
          if is_current current id
          then (marks, [])
          else session_memory_candidates lower clock db hints breadth id marks)
  unfolding session_memory_candidates mark_record_ids_read mark_each dedup_after
  memories_lem id marks =
      let found : List (MemoryNode SessionMemoryContent) =
        filter (candidate_matches lower memory_values hints breadth)
          (fetch marks (db.memories_of id)) in
      if_ind (Memories id marks) (is_current current id) (marks, [])
        (mark_record_ids_read clock (ids found) marks, found)
        (λ e. (refl, record { matching = sym (ap (λ b. if b then [] else found) e) }))
        (λ e. (refl, record { matching = sym (ap (λ b. if b then [] else found) e) }))

  pub session_lem :
      (session : MemoryNode SessionContent) (marks : Marks)
      → Finds clock session_reads SkipsSession TakesSession session marks
          (session_context lower clock db hints breadth current session marks)
  unfolding session_context mark_record_ids_read mark_each dedup_after mem
  session_lem session marks =
      let F : Marks × Option RetrievedSessionContext → Type 0 =
        Finds clock session_reads SkipsSession TakesSession session marks in
      let sm : Bool = candidate_matches lower session_values hints breadth session in
      let x : Marks × List RetrievedConversation =
        conversation_contexts lower clock db hints breadth session.id marks in
      let y : Marks × List (MemoryNode SessionMemoryContent) =
        if is_current current session.id
        then (x.0, [])
        else session_memory_candidates lower clock db hints breadth session.id x.0 in
      let (ex, with_conversations) = conversations_lem session.id marks in
      let (ey, with_memories) = memories_lem session.id x.0 in
      let reads_x : List String = reads_of conversation_reads x.1 in
      let both : y.0 ≡ mark_each clock (dedup (ids y.1)) (mark_each clock reads_x marks) =
        ey ∙ ap (mark_each clock (dedup (ids y.1))) ex in
      if_ind F (not sm && (is_nil x.1 && is_nil y.1)) (y.0, none)
        (
          mark_record_ids_read clock (session.id ∷ []) y.0,
          some (record {
            session = session;
            matched = sm;
            conversations = x.1;
            session_memories = y.1;
          }),
        )
        (λ t.
          let (unmatched, no_x, no_y) = and_lem sm (is_nil x.1) (is_nil y.1) t in
          let nothing_x : x.1 ≡ [] = is_nil_lem x.1 no_x in
          let nothing_y : y.1 ≡ [] = is_nil_lem y.1 no_y in
          (
            both
                ∙ ap (λ ms. mark_each clock (dedup (ids ms)) (mark_each clock reads_x marks))
                    nothing_y
                ∙ ap (λ cs. mark_each clock (reads_of conversation_reads cs) marks) nothing_x,
            record {
              unmatched = unmatched;
              no_conversations =
                  subst (HasConversations session.id marks) nothing_x with_conversations;
              no_memories = subst (HasMemories session.id marks) nothing_y (
                  subst (λ m. HasMemories session.id m y.1)
                    (ex
                      ∙ ap (λ cs. mark_each clock (reads_of conversation_reads cs) marks) nothing_x)
                    with_memories);
            },
          ))
        (λ t. (
          ap (mark_each clock (session.id ∷ [])) both
              ∙ sym (
                  mark_each-append clock (dedup (ids y.1)) (session.id ∷ [])
                    (mark_each clock reads_x marks))
              ∙ sym (mark_each-append clock reads_x (dedup (ids y.1) ++ session.id ∷ []) marks),
          record {
            itself = refl;
            matched = refl;
            with_conversations = with_conversations;
            with_memories = subst (λ m. HasMemories session.id m y.1) ex with_memories;
            reason = nand_lem sm (is_nil x.1) (is_nil y.1) t;
          },
        ))
