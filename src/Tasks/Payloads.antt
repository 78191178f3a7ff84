-- ===== src/Tasks/Payloads.antt =====
-- primitive_payloads.py of agent-host/src/reframe_agent_host/task_execution: what a primitive reads of
-- its payload. A text is a list of characters.
pub mod Nonempty
use Prim.Native.Char.{Char, code}
use Prim.Native.String.{String, [] as []ˢ, ◌∷◌ as ◌∷ˢ◌}
use reframe_web.Prelude.{
  ℕ, ◌-◌, ◌==◌, leb, Bool, true, false, ◌&&◌, ◌||◌, Option, none, some, List, [], ◌∷◌, ◌++◌,
  if◌then◌else◌, length, take, is_nil,
}

abbrev pub Text : Type 0
Text = List Char

-- A text of the source
unfoldable pub literal : String → Text
literal []ˢ = []
literal (c ∷ˢ s) = c ∷ literal s

abbrev between : ℕ → ℕ → ℕ → Bool
between low high n = leb low n && leb n high

-- The characters that `str.strip` removes
unfoldable pub is_space : Char → Bool
is_space c =
    let n = code c in
    between 9 13 n
    || between 28 32 n
    || n == 133
    || n == 160
    || n == 5760
    || between 8192 8202 n
    || between 8232 8233 n
    || n == 8239
    || n == 8287
    || n == 12288

-- `str.rstrip`
unfoldable pub rstrip : Text → Text
rstrip [] = []
rstrip (c ∷ text) = let rest = rstrip text in if is_nil rest && is_space c then [] else c ∷ rest

-- `str.lstrip`
unfoldable pub lstrip : Text → Text
lstrip [] = []
lstrip (c ∷ text) = let rest = lstrip text in if is_space c then rest else c ∷ text

abbrev pub strip : Text → Text
strip text = lstrip (rstrip text)

-- `text or other`
abbrev pub or_text : Text → Text → Text
or_text [] other = other
or_text (c ∷ text) other = c ∷ text

-- The keys that the code asks a mapping for
pub data Key : Type 0 where
  text_key message_key reply_key thought_key title_key name_key : Key
  summary_key description_key memory_key value_key : Key

-- `None`, a string, a mapping with the `str` of its values, or another value, which is true or false as
-- a condition, with its `str`
pub data Payload : Type 0 where
  absent : Payload
  string : Text → Payload
  mapping : (Key → Option Text) → Payload
  other : Bool → Text → Payload

abbrev first_or : Option Text → Text → Text
first_or none rest = rest
first_or (some t) rest = or_text (strip t) rest

unfoldable pub first_text : (Key → Option Text) → List Key → Text
first_text payload [] = []
first_text payload (key ∷ keys) = first_or (payload key) (first_text payload keys)

unfoldable pub payload_text : Payload → List Key → Text
payload_text absent keys = []
payload_text (string t) keys = strip t
payload_text (mapping payload) keys = first_text payload keys
payload_text (other truthy t) keys = []

-- `memory_payload` of a payload that is no mapping, on its stripped text
unfoldable pub memory_of_text : Text → Text → Text × Text
memory_of_text [] default_title = (default_title, default_title)
memory_of_text (c ∷ t) default_title = (strip (take 80 (c ∷ t)), c ∷ t)

unfoldable pub memory_payload : Payload → Text → Text × Text
memory_payload absent default_title = memory_of_text [] default_title
memory_payload (string t) default_title = memory_of_text (strip t) default_title
memory_payload (mapping payload) default_title =
    let found =
      or_text (first_text payload (title_key ∷ name_key ∷ summary_key ∷ [])) default_title in
    (
      found,
      or_text (first_text payload (description_key ∷ text_key ∷ memory_key ∷ value_key ∷ [])) found,
    )
memory_payload (other truthy t) default_title = memory_of_text (strip t) default_title

-- `MAX_ACTION_DETAIL_CHARS`
abbrev pub max_action_detail_chars : ℕ
max_action_detail_chars = 1200

-- `payload_preview`, of the text that `json.dumps` or `repr` gives
unfoldable pub payload_preview : Text → Text
payload_preview t =
    if leb (length t) max_action_detail_chars
    then t
    else rstrip (take (max_action_detail_chars - 3) t) ++ literal "..."

abbrev with_reason : Option Text → Text
with_reason none = []
with_reason (some reason) = literal " reason=" ++ reason

unfoldable pub action_not_supported_detail : Text → Text → Option Text → Text
action_not_supported_detail name dumped reason =
    literal "Action not supported: "
    ++ or_text name (literal "<empty>")
    ++ with_reason reason
    ++ literal " payload="
    ++ payload_preview dumped

unfoldable pub malformed_detail : Text → Text → Text
malformed_detail name dumped =
    literal "Malformed action payload: " ++ name ++ literal " payload=" ++ payload_preview dumped
