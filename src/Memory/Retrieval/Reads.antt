-- ===== src/Memory/Retrieval/Reads.antt =====
-- A whole retrieval: its task catalog, its sessions, and the memories of the current session.
use Prim.Native.String.{String}
use reframe_web.Prelude.{ℕ, ◌≡◌, refl, sym, ap, subst, ◌∙◌, Option, none, some, List, [], ◌∷◌, ◌++◌}
use reframe_web.Memory.Nodes.{
  DateTime, MemoryNode, SessionMemoryContent, TaskContent, Database, Marks, fetch, seen, last_mark,
  read_by, dedup, dedup_after, mark_each, mark_each-append, mark_record_ids_read, mark_records_read,
}
use reframe_web.Memory.Terms.{TimestampBreadth, GraphSearchHints, candidate_matches, task_values}
use reframe_web.Memory.Context.{RetrievedSessionContext, RetrievedMemoryContext}
use reframe_web.Memory.Retrieval.{
  GraphRetrievalRequest, filter, ids, task_catalog, session_context, past_conversation_context,
  current_session_memories, retrieve,
}
use reframe_web.Memory.Retrieval.Picks.{Picks, reads_of, collect_lem}
use reframe_web.Memory.Retrieval.Sound.{session_reads, SkipsSession, TakesSession, session_lem}

-- The ids that are read for a result
abbrev pub retrieved_reads : RetrievedMemoryContext → List String
retrieved_reads r =
    dedup (ids r.tasks) ++ (reads_of session_reads r.sessions ++ ids r.current_session_memories)

module _ {Content : Type 0} where
  read_by-id :
      (node : MemoryNode Content) (time : Option DateTime) → (read_by node time).id ≡ node.id
  read_by-id node none = refl
  read_by-id node (some time) = refl

  pub ids-fetch :
      (marks : Marks) (nodes : List (MemoryNode Content)) → ids (fetch marks nodes) ≡ ids nodes
  unfolding seen
  ids-fetch marks [] = refl
  ids-fetch marks (node ∷ nodes) =
      ap (λ id. id ∷ ids (fetch marks nodes)) (read_by-id node (last_mark node.id marks))
      ∙ ap (◌∷◌ node.id) (ids-fetch marks nodes)

  records_lem :
      (clock : ℕ → DateTime) (nodes : List (MemoryNode Content)) (marks : Marks)
      → ((mark_records_read clock nodes marks).0 ≡ mark_each clock (ids nodes) marks)
        × (ids (mark_records_read clock nodes marks).1 ≡ ids nodes)
  unfolding mark_records_read mark_each seen
  records_lem clock [] marks = (refl, refl)
  records_lem clock (node ∷ nodes) marks =
      let marks' : Marks = mark_each clock (node.id ∷ []) marks in
      let (e, same) = records_lem clock nodes marks' in
      (
        e,
        ap (λ id. id ∷ ids (mark_records_read clock nodes marks').1)
              (read_by-id node (last_mark node.id marks'))
            ∙ ap (◌∷◌ node.id) same,
      )

module _ (lower : String → String) (clock : ℕ → DateTime) (db : Database) where
  -- The tasks that match, if the request asks for them
  abbrev pub Catalog :
      GraphSearchHints → Option TimestampBreadth → Marks → List (MemoryNode TaskContent) → Type 0
  Catalog hints none marks tasks = tasks ≡ []
  Catalog hints (some breadth) marks tasks =
      tasks ≡ filter (candidate_matches lower task_values hints breadth) (fetch marks db.tasks)

  -- The sessions in which something matches, if the request asks for them
  abbrev pub Sessions :
      Option String
      → GraphSearchHints
      → Option TimestampBreadth
      → Marks
      → List RetrievedSessionContext
      → Type 0
  Sessions current hints none marks sessions = sessions ≡ []
  Sessions current hints (some breadth) marks sessions =
      Picks clock session_reads (SkipsSession lower clock db hints breadth current)
        (TakesSession lower clock db hints breadth current) marks (fetch marks db.sessions) sessions

  abbrev pub CurrentMemories : Option String → List (MemoryNode SessionMemoryContent) → Type 0
  CurrentMemories none memories = memories ≡ []
  CurrentMemories (some current) memories = ids memories ≡ ids (db.memories_of current)

  pub record IsRetrieved (current : Option String) (request : GraphRetrievalRequest) (marks : Marks)
      (x : Marks × RetrievedMemoryContext) : Type 0 where
    pub tasks : Catalog request.hints request.task_catalog marks x.1.tasks
    pub sessions :
        Sessions current request.hints request.past_conversation_context
          (mark_each clock (dedup (ids x.1.tasks)) marks)
          x.1.sessions
    pub memories : CurrentMemories current x.1.current_session_memories
    pub read : x.0 ≡ mark_each clock (retrieved_reads x.1) marks

  catalog_lem :
      (hints : GraphSearchHints) (breadth : Option TimestampBreadth) (marks : Marks)
      → ((task_catalog lower clock db hints breadth marks).0
          ≡ mark_each clock (dedup (ids (task_catalog lower clock db hints breadth marks).1)) marks)
        × Catalog hints breadth marks (task_catalog lower clock db hints breadth marks).1
  unfolding task_catalog mark_record_ids_read mark_each dedup_after
  catalog_lem hints none marks = (refl, refl)
  catalog_lem hints (some breadth) marks = (refl, refl)

  sessions_lem :
      (current : Option String) (hints : GraphSearchHints) (breadth : Option TimestampBreadth)
      (marks : Marks)
      → ((past_conversation_context lower clock db current hints breadth marks).0
          ≡ mark_each clock
              (reads_of session_reads
                (past_conversation_context lower clock db current hints breadth marks).1)
              marks)
        × Sessions current hints breadth marks
            (past_conversation_context lower clock db current hints breadth marks).1
  unfolding past_conversation_context mark_each
  sessions_lem current hints none marks = (refl, refl)
  sessions_lem current hints (some breadth) marks =
      let x =
        collect_lem clock session_reads (SkipsSession lower clock db hints breadth current)
          (TakesSession lower clock db hints breadth current)
          (session_context lower clock db hints breadth current)
          (session_lem lower clock db hints breadth current) (fetch marks db.sessions) marks in
      x

  current_lem :
      (current : Option String) (marks : Marks)
      → ((current_session_memories lower clock db current marks).0
          ≡ mark_each clock (ids (current_session_memories lower clock db current marks).1) marks)
        × CurrentMemories current (current_session_memories lower clock db current marks).1
  unfolding current_session_memories mark_each
  current_lem none marks = (refl, refl)
  current_lem (some current) marks =
      let (e, same) = records_lem clock (fetch marks (db.memories_of current)) marks in
      (
        e ∙ ap (λ is. mark_each clock is marks) (sym same),
        same ∙ ids-fetch marks (db.memories_of current),
      )

  -- Whatever has been read before: a retrieval returns the tasks of the catalog that match, and in
  -- their order just the sessions of which the name, a conversation or a memory matches, each with
  -- the conversations of which the name or a message matches, with all their messages and the ids
  -- of those that match, and with its memories that match unless it is the current session; all
  -- memories of the current session stand apart. What matches is tested on the nodes as the marks
  -- leave them that were made for what was returned before. It marks the returned nodes as read
  -- and no others.
  pub retrieve-IsRetrieved :
      (current : Option String) (request : GraphRetrievalRequest) (marks : Marks)
      → IsRetrieved current request marks (retrieve lower clock db current request marks)
  unfolding retrieve
  retrieve-IsRetrieved current request marks =
      let x : Marks × List (MemoryNode TaskContent) =
        task_catalog lower clock db request.hints request.task_catalog marks in
      let y : Marks × List RetrievedSessionContext =
        past_conversation_context lower clock db current request.hints
          request.past_conversation_context x.0 in
      let z : Marks × List (MemoryNode SessionMemoryContent) =
        current_session_memories lower clock db current y.0 in
      let (ex, tasks) = catalog_lem request.hints request.task_catalog marks in
      let (ey, sessions) =
        sessions_lem current request.hints request.past_conversation_context x.0 in
      let (ez, memories) = current_lem current y.0 in
      let task_ids : List String = dedup (ids x.1) in
      let session_ids : List String = reads_of session_reads y.1 in
      let upto : y.0 ≡ mark_each clock session_ids (mark_each clock task_ids marks) =
        ey ∙ ap (mark_each clock session_ids) ex in
      record {
        tasks = tasks;
        sessions =
            subst (λ m. Sessions current request.hints request.past_conversation_context m y.1) ex
              sessions;
        memories = memories;
        read =
            ez
            ∙ ap (mark_each clock (ids z.1)) upto
            ∙ sym (mark_each-append clock session_ids (ids z.1) (mark_each clock task_ids marks))
            ∙ sym (mark_each-append clock task_ids (session_ids ++ ids z.1) marks);
      }
