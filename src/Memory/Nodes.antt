-- ===== src/Memory/Nodes.antt =====
-- models.py of agent-host/src/reframe_memory, and the reads and marks of database.py: the nodes of the
-- memory graph and which of them have been read. Queries are in the language of the database, so the
-- lists that they return are an argument; the marks that the program makes are state.
use reframe_web.Prelude.{
  ℕ, ◌+◌, ◌-◌, ◌≡◌, refl, Bool, true, false, Option, none, some, List, [], ◌∷◌, ◌++◌, map,
  if◌then◌else◌, length,
}
use Prim.Native.String.{String}
use text.Mathlib.Text.{◌==◌}

-- The zone of a `datetime`: none, or the distance from UTC
pub data Zone : Type 0 where
  naive : Zone
  east west : ℕ → Zone

pub record DateTime : Type 0 where
  pub local : ℕ
  pub zone : Zone

abbrev utc : ℕ → Zone → ℕ
utc local naive = local
utc local (east offset) = local - offset
utc local (west offset) = local + offset

-- `_aware`: the instant in UTC, in microseconds
unfoldable pub aware : DateTime → ℕ
aware time = utc time.local time.zone

-- `MemoryTimestamps`
pub record MemoryTimestamps : Type 0 where
  pub created_at : DateTime
  pub updated_at : DateTime
  pub read_at : Option DateTime

-- `MemoryNode`
pub record MemoryNode (Content : Type 0) : Type 0 where
  pub id : String
  pub tags : List String
  pub timestamps : MemoryTimestamps
  pub content : Content

-- `Task`
pub record TaskContent : Type 0 where
  pub name : String
  pub description : String
  pub input : String
  pub output : String
  pub prompt : String
  pub provider_id : String

-- `Session`
pub record SessionContent : Type 0 where
  pub name : String

-- `Conversation`
pub record ConversationContent : Type 0 where
  pub name : String

-- `ConversationMessage`
pub record MessageContent : Type 0 where
  pub role : String
  pub content : String

-- `SessionMemory`
pub record SessionMemoryContent : Type 0 where
  pub title : String
  pub description : String

-- The nodes that the queries find, in the order in which they find them. The order is by the times of
-- creation and update, which a read does not change.
pub record Database : Type 0 where
  pub tasks : List (MemoryNode TaskContent)
  pub sessions : List (MemoryNode SessionContent)
  pub conversations_of : String → List (MemoryNode ConversationContent)
  pub messages_of : String → List (MemoryNode MessageContent)
  pub memories_of : String → List (MemoryNode SessionMemoryContent)

-- The marks of the program, the latest first
abbrev pub Marks : Type 0
Marks = List (String × DateTime)

unfoldable pub last_mark : String → Marks → Option DateTime
last_mark id [] = none
last_mark id ((marked, time) ∷ marks) =
    let rest = last_mark id marks in if marked == id then some time else rest

abbrev pub read_by : {Content : Type 0} → MemoryNode Content → Option DateTime → MemoryNode Content
read_by node none = node
read_by node (some time) = record node {
  timestamps = record node.timestamps { read_at = some time };
}

-- A node as a query returns it
unfoldable pub seen : {Content : Type 0} → Marks → MemoryNode Content → MemoryNode Content
seen marks node = read_by node (last_mark node.id marks)

-- A query with `mark_read=False`
abbrev pub fetch :
    {Content : Type 0} → Marks → List (MemoryNode Content) → List (MemoryNode Content)
fetch marks nodes = map (seen marks) nodes

-- `dict.fromkeys`
unfoldable pub mem : String → List String → Bool
mem id [] = false
mem id (other ∷ ids) = let rest = mem id ids in if other == id then true else rest

unfoldable pub dedup_after : List String → List String → List String
dedup_after before [] = []
dedup_after before (id ∷ ids) =
    let rest = dedup_after (id ∷ before) ids in
    let same = dedup_after before ids in if mem id before then same else id ∷ rest

abbrev pub dedup : List String → List String
dedup ids = dedup_after [] ids

module _ (clock : ℕ → DateTime) where
  -- The updates, one for each id; `time::now()` is given by the number of updates before.
  unfoldable pub mark_each : List String → Marks → Marks
  mark_each [] marks = marks
  mark_each (id ∷ ids) marks = mark_each ids ((id, clock (length marks)) ∷ marks)

  -- `mark_record_ids_read`
  unfoldable pub mark_record_ids_read : List String → Marks → Marks
  mark_record_ids_read ids marks = mark_each (dedup ids) marks

  -- `mark_records_read`: each record is returned as its update leaves it.
  unfoldable pub mark_records_read :
      {Content : Type 0} → List (MemoryNode Content) → Marks → Marks × List (MemoryNode Content)
  mark_records_read [] marks = (marks, [])
  mark_records_read (node ∷ nodes) marks =
      let marks' = mark_each (node.id ∷ []) marks in
      let (marks'', updated) = mark_records_read nodes marks' in
      (marks'', seen marks' node ∷ updated)

  pub mark_each-append :
      (ids more : List String) (marks : Marks)
      → mark_each (ids ++ more) marks ≡ mark_each more (mark_each ids marks)
  unfolding mark_each
  mark_each-append [] more marks = refl
  mark_each-append (id ∷ ids) more marks =
      mark_each-append ids more ((id, clock (length marks)) ∷ marks)
