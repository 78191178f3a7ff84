-- ===== src/Workspace/Outbox.antt =====
-- What the publication of checkpoints reads and writes: the daemon's table of publications
-- (workspace-fs/crates/workspace-daemon/src/store/publications.rs and checkpoints.rs), and the
-- checkpoint nodes of the memory graph (agent-host/src/reframe_memory/filesystem_memories.py and
-- filesystem_publication.py). Ids and canonical paths are numbers, since they are only compared.
pub mod Writes
pub mod Prunes
pub mod Identities
pub mod Marks
use Prim.Native.String.{String}
use reframe_web.Prelude.{
  ℕ, Bool, true, false, ◌&&◌, Option, none, some, List, [], ◌∷◌, ◌++◌, ◌==◌, if◌then◌else◌,
}

-- `PendingCheckpointPublication`
pub record Pending : Type 0 where
  pub manifest_id : ℕ
  pub session_id : ℕ
  pub session_name : String
  pub base_memory_ids : List ℕ
  pub retained_count : ℕ

-- A row of `checkpoint_publications`: pending while it has no memory id.
pub record Row : Type 0 where
  pub publication : Pending
  pub memory_id : Option ℕ

abbrev pub manifest_of : Row → ℕ
manifest_of row = row.publication.manifest_id

abbrev pub pending_row : Row → Option ℕ → List Pending → List Pending
pending_row row none rest = row.publication ∷ rest
pending_row row (some id) rest = rest

-- `pending_checkpoint_publications`
abbrev pub pending : List Row → List Pending
pending [] = []
pending (row ∷ rows) = pending_row row row.memory_id (pending rows)

abbrev pub find_row : ℕ → List Row → Option Row
find_row manifest [] = none
find_row manifest (row ∷ rows) =
    let rest = find_row manifest rows in if manifest_of row == manifest then some row else rest

abbrev pub first_id : Option ℕ → ℕ → Option ℕ
first_id none id = some id
first_id (some old) id = some old

-- The update of `mark_checkpoint_publication_published`, on the one row of a manifest.
abbrev pub mark : ℕ → ℕ → List Row → List Row
mark manifest id [] = []
mark manifest id (row ∷ rows) =
    let rest = mark manifest id rows in
    if manifest_of row == manifest
    then record row { memory_id = first_id row.memory_id id } ∷ rows
    else row ∷ rest

abbrev pub settled_row : ℕ → Option ℕ → Bool
settled_row id none = false
settled_row id (some old) = old == id

abbrev pub settled_found : ℕ → Option Row → Bool
settled_found id none = false
settled_found id (some row) = settled_row id row.memory_id

-- `check_completed_publication`: the manifest is published, with this memory id.
abbrev pub settled : ℕ → ℕ → List Row → Bool
settled manifest id rows = settled_found id (find_row manifest rows)

abbrev pub is_expired : (ℕ → Bool) → ℕ → Option ℕ → Bool
is_expired old manifest none = false
is_expired old manifest (some id) = old manifest

-- `prune_protocol_history_before`: what is left when the daemon opens its store. `old` tells which
-- manifests were published before the cutoff.
abbrev pub prune : (ℕ → Bool) → List Row → List Row
prune old [] = []
prune old (row ∷ rows) =
    let rest = prune old rows in
    if is_expired old row.publication.manifest_id row.memory_id then rest else row ∷ rest

-- `CheckpointFilesystemMemory`
pub record CheckpointMemory : Type 0 where
  pub title : String
  pub description : String
  pub backing_store : ℕ
  pub manifest_id : ℕ
  pub base_memory_ids : List ℕ

-- `FilesystemMemoryNode`, of a checkpoint
pub record CheckpointNode : Type 0 where
  pub id : ℕ
  pub content : CheckpointMemory

abbrev pub ids_eq : List ℕ → List ℕ → Bool
ids_eq [] [] = true
ids_eq [] (y ∷ ys) = false
ids_eq (x ∷ xs) [] = false
ids_eq (x ∷ xs) (y ∷ ys) = x == y && ids_eq xs ys

-- The test of two `_persistent_identity`s
abbrev pub same_identity : CheckpointMemory → CheckpointMemory → Bool
same_identity a b =
    a.backing_store == b.backing_store
    && (a.manifest_id == b.manifest_id && ids_eq a.base_memory_ids b.base_memory_ids)

-- The transaction of `publish_filesystem_memory`: a node of another identity is left as it is.
abbrev pub upsert : ℕ → CheckpointMemory → List CheckpointNode → List CheckpointNode
upsert id memory [] = record { id = id; content = memory } ∷ []
upsert id memory (n ∷ ns) =
    let rest = upsert id memory ns in
    if n.id == id
    then (if same_identity n.content memory then record n { content = memory } else n) ∷ ns
    else n ∷ rest

-- `_get_record`
abbrev pub get_record : ℕ → List CheckpointNode → Option CheckpointNode
get_record id [] = none
get_record id (n ∷ ns) = let rest = get_record id ns in if n.id == id then some n else rest

-- `DirectoryFilesystemMemory`, which has no bases
pub record DirectoryMemory : Type 0 where
  pub title : String
  pub description : String
  pub source_path : ℕ

pub record DirectoryNode : Type 0 where
  pub id : ℕ
  pub content : DirectoryMemory

-- The transaction of `publish_filesystem_memory`, and `_get_record`, on directories
abbrev pub upsert_directory : ℕ → DirectoryMemory → List DirectoryNode → List DirectoryNode
upsert_directory id memory [] = record { id = id; content = memory } ∷ []
upsert_directory id memory (n ∷ ns) =
    let rest = upsert_directory id memory ns in
    if n.id == id
    then (if n.content.source_path == memory.source_path then record n { content = memory } else n)
      ∷ ns
    else n ∷ rest

abbrev pub get_directory : ℕ → List DirectoryNode → Option DirectoryNode
get_directory id [] = none
get_directory id (n ∷ ns) = let rest = get_directory id ns in if n.id == id then some n else rest
