-- ===== src/Memory/Terms.antt =====
-- retrieval_terms.py of agent-host/src/reframe_memory: which nodes the search hints of a turn match.
-- `str.lower` is an argument.
use Prim.Native.String.{String, find, len}
use reframe_web.Prelude.{
  ℕ, leb, Bool, true, false, not, ◌&&◌, ◌||◌, Option, none, some, List, [], ◌∷◌, ◌++◌, map, is_nil,
  if◌then◌else◌,
}
use reframe_web.Memory.Nodes.{
  DateTime, aware, MemoryTimestamps, MemoryNode, TaskContent, SessionContent, ConversationContent,
  MessageContent, SessionMemoryContent, mem,
}

-- `TimestampBreadth`, whose times are aware
pub record TimestampBreadth : Type 0 where
  pub created_after : ℕ
  pub updated_after : ℕ
  pub read_after : ℕ

abbrev read_since : ℕ → Option DateTime → Bool
read_since read_after none = true
read_since read_after (some read_at) = leb read_after (aware read_at)

-- `TimestampBreadth.matches`
unfoldable pub breadth_matches : TimestampBreadth → MemoryTimestamps → Bool
breadth_matches breadth times =
    if not (leb breadth.created_after (aware times.created_at))
    then false
    else if not (leb breadth.updated_after (aware times.updated_at))
    then false
    else read_since breadth.read_after times.read_at

-- `TagSearch` and `StringSearch`
pub record TagSearch : Type 0 where
  pub any_of : List String
  pub all_of : List String
  pub none_of : List String

pub record StringSearch : Type 0 where
  pub contains : List String
  pub equals : List String

-- `GraphSearchHints`
pub record GraphSearchHints : Type 0 where
  pub tags : TagSearch
  pub strings : StringSearch

unfoldable pub any {ℓ} : {A : Type ℓ} → (A → Bool) → List A → Bool
any p [] = false
any p (x ∷ xs) = p x || any p xs

-- `term in value`
abbrev pub stands_in : String → String → Bool
stands_in term value = leb (find value term) (len value)

-- Whether two lists, as sets, have an element in common
unfoldable pub intersects : List String → List String → Bool
intersects tags others = any (λ tag. mem tag others) tags

module _ (lower : String → String) where
  -- `_matches_positive_string`, on the values of the fields
  unfoldable pub matches_positive_string : StringSearch → List String → Bool
  matches_positive_string strings values =
      any (λ term. any (λ value. stands_in (lower term) value) (map lower values)) strings.contains
      || any (λ value. mem value strings.equals) values

  unfoldable pub has_positive_terms : GraphSearchHints → Bool
  has_positive_terms hints =
      not (is_nil hints.tags.any_of)
      || not (is_nil hints.tags.all_of)
      || not (is_nil hints.strings.contains)
      || not (is_nil hints.strings.equals)

  -- `GraphSearchHints.matches`
  unfoldable pub hints_match : GraphSearchHints → List String → List String → Bool
  hints_match hints tags values =
      if intersects hints.tags.none_of tags
      then false
      else if not (has_positive_terms hints)
      then false
      else intersects (hints.tags.any_of ++ hints.tags.all_of) tags
        || matches_positive_string hints.strings values

  -- `candidate_matches`, where `values` reads the searched fields of a content
  unfoldable pub candidate_matches :
      {Content : Type 0}
      → (Content → List String)
      → GraphSearchHints
      → TimestampBreadth
      → MemoryNode Content
      → Bool
  candidate_matches values hints breadth node =
      breadth_matches breadth node.timestamps && hints_match hints node.tags (values node.content)

-- The fields that a search reads of each kind of node
abbrev pub task_values : TaskContent → List String
task_values t = t.name ∷ t.description ∷ t.input ∷ t.output ∷ t.prompt ∷ t.provider_id ∷ []

abbrev pub session_values : SessionContent → List String
session_values s = s.name ∷ []

abbrev pub conversation_values : ConversationContent → List String
conversation_values c = c.name ∷ []

abbrev pub message_values : MessageContent → List String
message_values m = m.role ∷ m.content ∷ []

abbrev pub memory_values : SessionMemoryContent → List String
memory_values m = m.title ∷ m.description ∷ []
