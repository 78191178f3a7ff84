-- ===== src/Tasks/Dispatch.antt =====
-- primitives.py of agent-host/src/reframe_agent_host/task_execution: `PrimitiveDispatcher`, which does
-- what the agent's task returned. The ids of a database's records are an argument, by the number of
-- writes before, where none is a write that raises; what `on_event` shows and the threads that speak
-- and note interruptions are left out, so `spoke` is the start of such a thread.
pub mod Runs
pub mod Records
pub mod History
use reframe_web.Prelude.{
  length, ℕ, ◌+◌, Bool, true, false, Option, none, some, is_some, List, [], ◌∷◌, ◌++◌,
  if◌then◌else◌,
}
use reframe_web.Tasks.Payloads.{
  Text, literal, text_key, message_key, reply_key, thought_key, Payload, absent, string, mapping,
  other, or_text, payload_text, memory_payload, action_not_supported_detail, malformed_detail,
}

-- The stripped name of a call: a supported primitive, or any other name, also those that
-- `UNSUPPORTED_PRIMITIVES` lists
pub data Name : Type 0 where
  agent_thought agent_reply conversation_mode_off session_memory user_preference : Name
  unsupported_name : Text → Name

abbrev pub text_of : Name → Text
text_of agent_thought = literal "agent_thought"
text_of agent_reply = literal "agent_reply"
text_of conversation_mode_off = literal "conversation_mode_off"
text_of session_memory = literal "session_memory"
text_of user_preference = literal "user_preference"
text_of (unsupported_name name) = name

-- `TaskReturnItem`
pub record Call : Type 0 where
  pub name : Name
  pub payload : Payload

pub data Status : Type 0 where
  ok unsupported malformed : Status

-- The `output` of a record, by the keys that it has
pub data Output (RecordId : Type 0) : Type 0 where
  problem_output : Status → Text → Option RecordId → Output RecordId
  message_output : Option RecordId → Text → Output RecordId
  mode_output : Output RecordId
  memory_output : RecordId → Text → Text → Output RecordId

-- `call.payload or {}`
abbrev empty_mapping : Payload
empty_mapping = mapping (λ key. none)

abbrev pub input_of : Payload → Payload
input_of absent = empty_mapping
input_of (string []) = empty_mapping
input_of (string (c ∷ text)) = string (c ∷ text)
input_of (mapping values) = mapping values
input_of (other truthy text) = if truthy then other truthy text else empty_mapping

-- `PrimitiveDispatchRecord`
pub record DispatchRecord (RecordId : Type 0) : Type 0 where
  pub name : Text
  pub status : Status
  pub detail : Text
  pub output : Output RecordId

-- What a dispatch does, in order
pub data Effect (RecordId : Type 0) : Type 0 where
  created_task_history : RecordId → Effect RecordId
  added_reply added_thought : RecordId → Text → RecordId → Effect RecordId
  created_session_memory : RecordId → Text → Text → RecordId → Effect RecordId
  created_preference : Text → Text → RecordId → Effect RecordId
  recorded_action : Text → Payload → Output RecordId → RecordId → Effect RecordId
  appended_node : RecordId → RecordId → RecordId → List RecordId → RecordId → Effect RecordId
  turned_conversation_off : Effect RecordId
  spoke : Text → Effect RecordId

-- The fields of `PrimitiveDispatcher` that no method sets, and what the dispatcher calls. A callback
-- `on_conversation_mode_off` is given by whether it raises, after so many effects.
pub record Setting (RecordId : Type 0) : Type 0 where
  pub session_id : Option RecordId
  pub conversation_id : Option RecordId
  pub mode_callback : Option (ℕ → Bool)
  pub id_of_write : ℕ → Option RecordId
  pub dumps : Payload → Text

pub record Dispatcher (RecordId : Type 0) : Type 0 where
  pub task_history_id : Option RecordId
  pub writes : ℕ
  pub journal : List (Effect RecordId)

-- `PrimitiveDispatchResult`
pub record DispatchResult (RecordId : Type 0) : Type 0 where
  pub records : List (DispatchRecord RecordId)
  pub task_history_id : Option RecordId
  pub task_history_node_id : Option RecordId

-- An action on the dispatcher; none is an exception.
abbrev pub M : Type 0 → Type 0 → Type 0
M RecordId A = Dispatcher RecordId → Dispatcher RecordId × Option A

abbrev pub go_on :
    {RecordId A B : Type 0}
    → Dispatcher RecordId × Option A
    → (A → M RecordId B)
    → Dispatcher RecordId × Option B
go_on (d, none) f = (d, none)
go_on (d, some a) f = f a d

infixl 5 ◌>>=◌ ◌>>◌
abbrev pub ◌>>=◌ : {RecordId A B : Type 0} → M RecordId A → (A → M RecordId B) → M RecordId B
◌>>=◌ m f d = go_on (m d) f

abbrev pub ◌>>◌ : {RecordId A B : Type 0} → M RecordId A → M RecordId B → M RecordId B
m >> k = m >>= λ _. k

abbrev pub pure : {RecordId A : Type 0} → A → M RecordId A
pure a d = (d, some a)

abbrev pub perform : {RecordId : Type 0} → Effect RecordId → M RecordId (Unit {0})
perform e d = (record d { journal = d.journal ++ e ∷ [] }, some tt)

abbrev pub called :
    {RecordId : Type 0} → Bool → Dispatcher RecordId → Dispatcher RecordId × Option (Unit {0})
called true d = (d, none)
called false d = (d, some tt)

-- `on_conversation_mode_off`, where there is one
abbrev pub call_back : {RecordId : Type 0} → Option (ℕ → Bool) → M RecordId (Unit {0})
call_back none d = (d, some tt)
call_back (some raises) d =
    called (raises (length d.journal))
      (record d { journal = d.journal ++ turned_conversation_off ∷ [] })

-- A write of the database, which gives the record's id or raises
abbrev pub written :
    {RecordId : Type 0}
    → Option RecordId
    → (RecordId → Effect RecordId)
    → Dispatcher RecordId
    → Dispatcher RecordId × Option RecordId
written none effect d = (record d { writes = d.writes + 1 }, none)
written (some id) effect d =
    (record d { writes = d.writes + 1; journal = d.journal ++ effect id ∷ [] }, some id)

module _ {RecordId : Type 0} (s : Setting RecordId) where
  abbrev pub write : (RecordId → Effect RecordId) → M RecordId RecordId
  write effect d = written (s.id_of_write d.writes) effect d

  -- The message of a reply, where there is a conversation
  unfoldable pub add_reply : Option RecordId → Text → M RecordId (Option RecordId)
  add_reply none text = pure none
  add_reply (some conversation) text = do id ← write (added_reply conversation text); pure (some id)

  -- `_agent_reply`
  unfoldable pub agent_replies : Text → M RecordId (Option RecordId)
  agent_replies text = do id ← add_reply s.conversation_id text; perform (spoke text); pure id

  -- `_agent_thought`, in the conversation
  unfoldable pub agent_thinks : Option RecordId → Text → M RecordId (Option RecordId)
  agent_thinks none text = pure none
  agent_thinks (some conversation) text = do
    id ← write (added_thought conversation text)
    pure (some id)

  -- A record of a problem, of which the agent tells
  unfoldable pub problem : Text → Status → Text → M RecordId (DispatchRecord RecordId)
  problem name status detail = do
    id ← agent_replies detail
    pure (record {
      name = name;
      status = status;
      detail = detail;
      output = problem_output status detail id;
    })

  -- A reply or a thought, whose text must not be empty
  unfoldable pub tell :
      (Text → M RecordId (Option RecordId))
      → Name
      → Payload
      → Text
      → M RecordId (DispatchRecord RecordId)
  tell send name payload [] =
      problem (text_of name) malformed (malformed_detail (text_of name) (s.dumps payload))
  tell send name payload (c ∷ text) = do
    id ← send (c ∷ text)
    pure (record {
      name = text_of name;
      status = ok;
      detail = c ∷ text;
      output = message_output id (c ∷ text);
    })

  unfoldable pub turn_off : M RecordId (DispatchRecord RecordId)
  turn_off = do
    call_back s.mode_callback
    pure (record {
      name = text_of conversation_mode_off;
      status = ok;
      detail = literal "continuous conversation off";
      output = mode_output;
    })

  unfoldable pub remember :
      Name
      → (Text → Text → RecordId → Effect RecordId)
      → Text × Text
      → M RecordId (DispatchRecord RecordId)
  remember name effect (title, description) = do
    id ← write (effect title description)
    pure (record {
      name = text_of name;
      status = ok;
      detail = title;
      output = memory_output id title description;
    })

  unfoldable pub remember_in_session :
      Option RecordId → Payload → M RecordId (DispatchRecord RecordId)
  remember_in_session none payload = problem (text_of session_memory) unsupported (
      action_not_supported_detail (text_of session_memory) (s.dumps payload)
        (some (literal "missing session_id")))
  remember_in_session (some session) payload =
      remember session_memory (created_session_memory session)
        (memory_payload payload (literal "Session memory"))

  -- `_dispatch_call`
  unfoldable pub dispatch_call : Name → Payload → M RecordId (DispatchRecord RecordId)
  dispatch_call (unsupported_name name) payload =
      problem (or_text name (literal "<empty>")) unsupported
        (action_not_supported_detail name (s.dumps payload) none)
  dispatch_call agent_reply payload =
      tell agent_replies agent_reply payload
        (payload_text payload (text_key ∷ message_key ∷ reply_key ∷ []))
  dispatch_call agent_thought payload =
      tell (agent_thinks s.conversation_id) agent_thought payload
        (payload_text payload (text_key ∷ thought_key ∷ message_key ∷ []))
  dispatch_call conversation_mode_off payload = turn_off
  dispatch_call session_memory payload = remember_in_session s.session_id payload
  dispatch_call user_preference payload =
      remember user_preference created_preference
        (memory_payload payload (literal "User preference"))

  -- `_record_action`, where there is a task history
  unfoldable pub record_action :
      Option RecordId → Payload → DispatchRecord RecordId → M RecordId (List RecordId)
  record_action none payload r = pure []
  record_action (some history) payload r = do
    id ← write (recorded_action r.name (input_of payload) r.output)
    pure (id ∷ [])

  -- The loop of `dispatch`: the records and the ids of their actions
  unfoldable pub dispatch_all :
      List Call → M RecordId (List (DispatchRecord RecordId) × List RecordId)
  dispatch_all [] = pure ([], [])
  dispatch_all (call ∷ calls) = do
    r ← dispatch_call call.name call.payload
    ids ← λ d. record_action d.task_history_id call.payload r d
    rest ← dispatch_all calls
    pure (r ∷ rest.0, ids ++ rest.1)

  -- `_ensure_task_history`
  unfoldable pub create_task_history : Option RecordId → M RecordId (Option RecordId)
  create_task_history (some history) = pure (some history)
  create_task_history none = do
    id ← write created_task_history
    λ d. (record d { task_history_id = some id }, some (some id))

  unfoldable pub ensure_task_history :
      Option RecordId → Option RecordId → M RecordId (Option RecordId)
  ensure_task_history (some session) (some conversation) d = create_task_history d.task_history_id d
  ensure_task_history none conversation d = (d, some none)
  ensure_task_history (some session) none d = (d, some none)

  -- `_append_task_history_node`
  unfoldable pub append_node :
      Option RecordId
      → Option RecordId
      → Option RecordId
      → List RecordId
      → M RecordId (Option RecordId)
  append_node (some history) (some session) (some conversation) actions = do
    id ← write (appended_node history session conversation actions)
    pure (some id)
  append_node none session conversation actions = pure none
  append_node (some history) none conversation actions = pure none
  append_node (some history) (some session) none actions = pure none

  -- `dispatch`
  unfoldable pub dispatch : Option (List Call) → M RecordId (DispatchResult RecordId)
  dispatch none =
      pure (record { records = []; task_history_id = none; task_history_node_id = none })
  dispatch (some calls) = do
    history ← ensure_task_history s.session_id s.conversation_id
    done ← dispatch_all calls
    node ← append_node history s.session_id s.conversation_id done.1
    pure (record { records = done.0; task_history_id = history; task_history_node_id = node })
