-- ===== src/Agent/LiveConversation.antt =====
-- live_conversation.py of agent-host/src/reframe_agent_host/agent_flow: `LiveConversationContext`. The
-- lock makes each method one step; the clock is an argument, in microseconds. A conversation's id is
-- its record id, which `memory_node_record_id` has made. `merge` takes the lock twice, between which
-- nothing changes here.
pub mod Stamps
pub mod Counts
use Prim.Native.Char.{Char, code}
use reframe_web.Prelude.{
  ℕ, ◌+◌, ◌-◌, ◌==◌, leb, Bool, true, false, not, ◌&&◌, Option, none, some, or_else, List, [], ◌∷◌,
  ◌++◌, map, if◌then◌else◌,
}
use reframe_web.Tasks.Payloads.{Text, literal, is_space}

unfoldable pub text_eq : Text → Text → Bool
text_eq [] [] = true
text_eq [] (d ∷ u) = false
text_eq (c ∷ t) [] = false
text_eq (c ∷ t) (d ∷ u) = (code c == code d) && text_eq t u

-- `" ".join(content.split())`, with a space in front where the content has one
abbrev spaced : Text → Text
spaced [] = []
spaced (c ∷ rest) = if is_space c then c ∷ rest else literal " " ++ c ∷ rest

unfoldable pub squeeze : Text → Text
squeeze [] = []
squeeze (c ∷ t) = let rest = squeeze t in if is_space c then spaced rest else c ∷ rest

abbrev unspaced : Text → Text
unspaced [] = []
unspaced (c ∷ rest) = if is_space c then rest else c ∷ rest

unfoldable pub clean : Text → Text
clean content = unspaced (squeeze content)

-- `LiveConversationMessage`
pub record LiveMessage : Type 0 where
  pub conversation_id : ℕ
  pub role : Text
  pub content : Text
  pub captured_at : ℕ

-- `LiveConversationContext`
pub record Live : Type 0 where
  pub messages : List LiveMessage
  pub active_human_replies : List ℕ
  pub last_captured_at : Option ℕ

abbrev pub create : Live
create = record { messages = []; active_human_replies = []; last_captured_at = none }

-- `_next_captured_at`
unfoldable pub next_captured_at : Option ℕ → ℕ → ℕ
next_captured_at none now = now
next_captured_at (some last) now = if leb now last then last + 1 else now

-- Under the lock, for a content that is not empty
unfoldable pub append_message : Live → ℕ → ℕ → Text → Text → Live
append_message s now conversation_id role content =
    let captured_at = next_captured_at s.last_captured_at now in
    record {
      messages =
          s.messages
          ++ record {
            conversation_id = conversation_id;
            role = role;
            content = content;
            captured_at = captured_at;
          }
            ∷ [];
      active_human_replies =
          if text_eq role (literal "human")
          then s.active_human_replies ++ captured_at ∷ []
          else s.active_human_replies;
      last_captured_at = some captured_at;
    }

unfoldable pub add_clean : Live → ℕ → ℕ → Text → Text → Live × Option ℕ
add_clean s now conversation_id role [] = (s, none)
add_clean s now conversation_id role (c ∷ content) = (
  append_message s now conversation_id role (c ∷ content),
  some (next_captured_at s.last_captured_at now),
)

-- `add_message`
unfoldable pub add_message : Live → ℕ → Option ℕ → Text → Text → Live × Option ℕ
add_message s now none role content = (s, none)
add_message s now (some conversation_id) role content =
    add_clean s now conversation_id role (clean content)

unfoldable pub discard : ℕ → List ℕ → List ℕ
discard x [] = []
discard x (y ∷ ys) = let rest = discard x ys in if x == y then rest else y ∷ rest

-- `resolve_human_reply`
unfoldable pub resolve_human_reply : Live → Option ℕ → Live
resolve_human_reply s none = s
resolve_human_reply s (some captured_at) = record s {
  active_human_replies = discard captured_at s.active_human_replies;
}

unfoldable pub mem : ℕ → List ℕ → Bool
mem x [] = false
mem x (y ∷ ys) = let rest = mem x ys in if x == y then true else rest

unfoldable pub filter : {A : Type 0} → (A → Bool) → List A → List A
filter p [] = []
filter p (x ∷ xs) = let rest = filter p xs in if p x then x ∷ rest else rest

-- `_messages_for`
abbrev pub messages_for : Live → ℕ → List LiveMessage
messages_for s conversation_id = filter (λ m. m.conversation_id == conversation_id) s.messages

-- The messages of `active_human_reply_created_at`
abbrev pub active_for : Live → ℕ → List LiveMessage
active_for s conversation_id =
    filter (λ m. mem m.captured_at s.active_human_replies) (messages_for s conversation_id)

-- `active_human_reply_created_at`
unfoldable pub active_human_reply_created_at : Live → Option ℕ → List ℕ
active_human_reply_created_at s none = []
active_human_reply_created_at s (some conversation_id) =
    map (λ m. m.captured_at) (active_for s conversation_id)

-- The text of a time: in the form of `_next_captured_at`, or any other with what it parses to
pub data Stamp : Type 0 where
  captured : ℕ → Stamp
  other_stamp : Option ℕ → Stamp

-- `ConversationHistoryMessage`
pub record HistoryMessage : Type 0 where
  pub created_at : Stamp
  pub updated_at : Stamp
  pub role : Text
  pub content : Text

-- `ConversationHistory`
pub record History : Type 0 where
  pub id : ℕ
  pub name : Text
  pub created_at : Stamp
  pub updated_at : Stamp
  pub read_at : Text
  pub messages : List HistoryMessage

abbrev pub key_eq : Text × Text → Text × Text → Bool
key_eq (role, content) (role', content') = text_eq role role' && text_eq content content'

abbrev pub live_key : LiveMessage → Text × Text
live_key m = (m.role, m.content)

abbrev pub history_key : HistoryMessage → Text × Text
history_key m = (m.role, m.content)

-- `_history_message`
abbrev pub history_message : LiveMessage → HistoryMessage
history_message m = record {
  created_at = captured m.captured_at;
  updated_at = captured m.captured_at;
  role = m.role;
  content = m.content;
}

abbrev stamp_is : ℕ → Stamp → Bool
stamp_is t (captured u) = u == t
stamp_is t (other_stamp parsed) = false

abbrev at_or_after : ℕ → Stamp → Bool
at_or_after t (captured u) = leb t u
at_or_after t (other_stamp none) = false
at_or_after t (other_stamp (some u)) = leb t u

-- `_replace_persisted_active_reply` at one message: none where the search goes on
unfoldable pub replace_here :
    LiveMessage → HistoryMessage → List HistoryMessage → Option (List HistoryMessage)
replace_here live m ms =
    if key_eq (history_key m) (live_key live)
    then (if stamp_is live.captured_at m.created_at
        then some (m ∷ ms)
        else if at_or_after live.captured_at m.created_at
        then some ms
        else none)
    else none

abbrev pub behind :
    HistoryMessage
    → Option (List HistoryMessage)
    → Option (List HistoryMessage)
    → Option (List HistoryMessage)
behind m (some ms) here = some (m ∷ ms)
behind m none here = here

-- The search from the last message to the first
unfoldable pub replace_search : LiveMessage → List HistoryMessage → Option (List HistoryMessage)
replace_search live [] = none
replace_search live (m ∷ ms) = behind m (replace_search live ms) (replace_here live m ms)

abbrev pub found_or : List HistoryMessage → Option (List HistoryMessage) → List HistoryMessage
found_or ms none = ms
found_or ms (some found) = found

-- `_replace_persisted_active_reply`
unfoldable pub replace_persisted_active_reply :
    LiveMessage → List HistoryMessage → List HistoryMessage
replace_persisted_active_reply live ms = found_or ms (replace_search live ms)

unfoldable pub replace_all : List LiveMessage → List HistoryMessage → List HistoryMessage
replace_all [] ms = ms
replace_all (live ∷ lives) ms = replace_all lives (replace_persisted_active_reply live ms)

-- `Counter`
unfoldable pub count : Text × Text → List (Text × Text) → ℕ
count key [] = 0
count key (key' ∷ keys) = let rest = count key keys in if key_eq key key' then rest + 1 else rest

-- The last loop of `merge`
unfoldable pub append_missing :
    (Text × Text → ℕ) → List LiveMessage → List HistoryMessage → List HistoryMessage
append_missing counts [] merged = merged
append_missing counts (live ∷ lives) merged =
    let key = live_key live in
    let left = append_missing (λ k. if key_eq k key then counts k - 1 else counts k) lives merged in
    let more = append_missing counts lives (merged ++ history_message live ∷ []) in
    if leb 1 (counts key) then left else more

unfoldable pub merge_messages :
    List LiveMessage → List LiveMessage → List HistoryMessage → List HistoryMessage
merge_messages lives active messages =
    let merged = replace_all active messages in
    append_missing (λ key. count key (map history_key merged)) lives merged

unfoldable pub merge_live : Live → ℕ → ℕ → List LiveMessage → Option History → Option History
merge_live s now conversation_id [] conversation = conversation
merge_live s now conversation_id (live ∷ lives) none = some (record {
  id = conversation_id;
  name = literal "Current conversation";
  created_at = captured now;
  updated_at = captured now;
  read_at = literal "NONE";
  messages = map history_message (live ∷ lives);
})
merge_live s now conversation_id (live ∷ lives) (some conversation) = some (record conversation {
  messages = merge_messages (live ∷ lives) (active_for s conversation_id) conversation.messages;
})

-- `merge`
unfoldable pub merge : Live → ℕ → Option History → Option ℕ → Option History
merge s now conversation none = conversation
merge s now conversation (some conversation_id) =
    merge_live s now conversation_id (messages_for s conversation_id) conversation
