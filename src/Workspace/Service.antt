-- ===== src/Workspace/Service.antt =====
-- service.py of agent-host/src/reframe_agent_host/workspace: one request of the daemon client, with
-- its retries. What each attempt meets is an argument; so are the UUID of the idempotency key and
-- whether the encoded request fits a frame. The request lock makes a request one step.
pub mod Policy
use reframe_web.Prelude.{
  ℕ, zero, suc, ◌+◌, Bool, true, false, Option, none, some, List, [], ◌∷◌, ◌++◌, ◌==◌,
  if◌then◌else◌,
}
use reframe_web.Workspace.Operations.{
  WorkspaceOperation, operation_metadata, is_process_local, Request,
}

pub data Outcome (Value Problem : Type 0) : Type 0 where
  success : Value → Outcome Value Problem
  failure : Problem → Outcome Value Problem

-- `WorkspaceResponse`, which pydantic has validated
pub record Response (Value Problem : Type 0) : Type 0 where
  pub request_id : ℕ
  pub outcome : Outcome Value Problem

-- What an attempt meets: no connection (after the retries of `_connect_with_retry`), a daemon that
-- cannot be launched, a failed write or read, a frame that is too long or not a JSON object, one that
-- is no response, or a response. The first two are met only where no connection is held.
pub data Attempt (Value Problem : Type 0) : Type 0 where
  no_connection launch_failed write_failed read_failed unreadable invalid_envelope :
      Attempt Value Problem
  responds : Response Value Problem → Attempt Value Problem

pub data Reply (Value Problem : Type 0) : Type 0 where
  returned : Value → Reply Value Problem
  remote_error : Problem → Reply Value Problem
  request_too_large cannot_launch unreadable_response invalid_response wrong_request_id :
      Reply Value Problem
  transport_error outcome_unknown : Reply Value Problem

-- The client: whether it holds a connection, the number of requests, and every request that it began
-- to write.
pub record Daemon (Arguments Key : Type 0) : Type 0 where
  pub connected : Bool
  pub request_number : ℕ
  pub written : List (Request Arguments Key)

module _ {Value Problem : Type 0} where
  -- The answer of an attempt that ends the loop; a transport failure does not.
  unfoldable pub of_outcome : Outcome Value Problem → Reply Value Problem
  of_outcome (success value) = returned value
  of_outcome (failure problem) = remote_error problem

  unfoldable pub answer : ℕ → Response Value Problem → Reply Value Problem
  unfolding of_outcome
  answer request_id response =
      if response.request_id == request_id then of_outcome response.outcome else wrong_request_id

  unfoldable pub settle : ℕ → Attempt Value Problem → Option (Reply Value Problem)
  unfolding answer
  settle request_id no_connection = none
  settle request_id launch_failed = some cannot_launch
  settle request_id write_failed = none
  settle request_id read_failed = none
  settle request_id unreadable = some unreadable_response
  settle request_id invalid_envelope = some invalid_response
  settle request_id (responds response) = some (answer request_id response)

  -- A request is written unless there is no connection: one is opened where none is held.
  abbrev pub writes : Bool → Attempt Value Problem → Bool
  writes connected no_connection = connected
  writes connected launch_failed = connected
  writes connected attempt = true

module _ {Arguments Key Value Problem : Type 0} where
  -- The body of the loop; `finally` closes the connection.
  unfoldable pub attempt_once :
      Daemon Arguments Key → Request Arguments Key → Attempt Value Problem → Daemon Arguments Key
  attempt_once d request attempt = record d {
    connected = false;
    written = if writes d.connected attempt then d.written ++ request ∷ [] else d.written;
  }

  -- The attempts left, in order, and the error at the end.
  unfoldable pub attempt_all :
      Daemon Arguments Key
      → Request Arguments Key
      → List (Attempt Value Problem)
      → Reply Value Problem
      → Daemon Arguments Key × Reply Value Problem
  attempt_all d request [] last_error = (d, last_error)
  attempt_all d request (attempt ∷ attempts) last_error =
      let d' = attempt_once d request attempt in
      elim (settle request.request_id attempt) [
        | none ↦ attempt_all d' request attempts last_error
        | some reply ↦ (d', reply)
      ]

  -- `_request`, for the two attempts that the environment would answer.
  unfoldable pub request :
      Daemon Arguments Key
      → WorkspaceOperation
      → Arguments
      → Key
      → (Request Arguments Key → Bool)
      → Attempt Value Problem
      → Attempt Value Problem
      → Daemon Arguments Key × Reply Value Problem
  request d operation arguments key fits first second =
      let number = d.request_number + 1 in
      let d' = record d { request_number = number } in
      let metadata = operation_metadata operation in
      let r : Request Arguments Key = record {
        request_id = number;
        operation = operation;
        idempotency_key = if metadata.mutates then some key else none;
        arguments = arguments;
      } in
      if fits r
      then (if is_process_local metadata.idempotency_scope
          then attempt_all d' r (first ∷ []) outcome_unknown
          else attempt_all d' r (first ∷ second ∷ []) transport_error)
      else (d', request_too_large)

-- `close`
abbrev pub close : {Arguments Key : Type 0} → Daemon Arguments Key → Daemon Arguments Key
close d = record d { connected = false }
