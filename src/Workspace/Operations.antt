-- ===== src/Workspace/Operations.antt =====
-- protocol.py of agent-host/src/reframe_agent_host/workspace: the operations of the daemon and what
-- may be done with them again.
use reframe_web.Prelude.{ℕ, ◌≡◌, refl, Bool, true, false, not, Option}

-- `WorkspaceOperation`
pub data WorkspaceOperation : Type 0 where
  hello health create_workspace apply_policy mount_workspace prefetch : WorkspaceOperation
  get_change_journal get_workspace_status list_workspaces read_file_summary : WorkspaceOperation
  commit_checkpoint list_pending_checkpoint_publications : WorkspaceOperation
  complete_checkpoint_publication unmount_workspace close_workspace : WorkspaceOperation
  destroy_ephemeral_workspace shutdown : WorkspaceOperation

-- `IdempotencyScope`
pub data IdempotencyScope : Type 0 where
  no_scope durable process_local : IdempotencyScope

abbrev pub is_none_scope : IdempotencyScope → Bool
is_none_scope no_scope = true
is_none_scope durable = false
is_none_scope process_local = false

abbrev pub is_process_local : IdempotencyScope → Bool
is_process_local no_scope = false
is_process_local durable = false
is_process_local process_local = true

pub record OperationMetadata : Type 0 where
  pub mutates : Bool
  pub idempotency_scope : IdempotencyScope

abbrev pub read_only : OperationMetadata
read_only = record { mutates = false; idempotency_scope = no_scope }

abbrev pub durable_mutation : OperationMetadata
durable_mutation = record { mutates = true; idempotency_scope = durable }

abbrev pub process_local_mutation : OperationMetadata
process_local_mutation = record { mutates = true; idempotency_scope = process_local }

-- `OPERATION_METADATA`
unfoldable pub operation_metadata : WorkspaceOperation → OperationMetadata
operation_metadata hello = read_only
operation_metadata health = read_only
operation_metadata create_workspace = durable_mutation
operation_metadata apply_policy = durable_mutation
operation_metadata mount_workspace = process_local_mutation
operation_metadata prefetch = process_local_mutation
operation_metadata get_change_journal = read_only
operation_metadata get_workspace_status = read_only
operation_metadata list_workspaces = read_only
operation_metadata read_file_summary = read_only
operation_metadata commit_checkpoint = durable_mutation
operation_metadata list_pending_checkpoint_publications = read_only
operation_metadata complete_checkpoint_publication = durable_mutation
operation_metadata unmount_workspace = process_local_mutation
operation_metadata close_workspace = durable_mutation
operation_metadata destroy_ephemeral_workspace = durable_mutation
operation_metadata shutdown = process_local_mutation

-- `request_payload`
pub record Request (Arguments Key : Type 0) : Type 0 where
  pub request_id : ℕ
  pub operation : WorkspaceOperation
  pub idempotency_key : Option Key
  pub arguments : Arguments

-- An operation mutates exactly if it has an idempotency scope, as `__post_init__` demands.
pub metadata_agrees :
    (operation : WorkspaceOperation)
    → (operation_metadata operation).mutates
      ≡ not (is_none_scope (operation_metadata operation).idempotency_scope)
unfolding operation_metadata
metadata_agrees hello = refl
metadata_agrees health = refl
metadata_agrees create_workspace = refl
metadata_agrees apply_policy = refl
metadata_agrees mount_workspace = refl
metadata_agrees prefetch = refl
metadata_agrees get_change_journal = refl
metadata_agrees get_workspace_status = refl
metadata_agrees list_workspaces = refl
metadata_agrees read_file_summary = refl
metadata_agrees commit_checkpoint = refl
metadata_agrees list_pending_checkpoint_publications = refl
metadata_agrees complete_checkpoint_publication = refl
metadata_agrees unmount_workspace = refl
metadata_agrees close_workspace = refl
metadata_agrees destroy_ephemeral_workspace = refl
metadata_agrees shutdown = refl
