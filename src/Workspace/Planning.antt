-- ===== src/Workspace/Planning.antt =====
-- planning.py of agent-host/src/reframe_agent_host/workspace: the filesystem memories that a
-- workspace plan names are resolved to sources, bases first. A memory id is a number, since ids are
-- only compared; the database and the disk are arguments.
pub mod Sets
pub mod Order
use reframe_web.Prelude.{
  ℕ, zero, suc, Bool, true, false, not, ◌||◌, Option, none, some, List, [], ◌∷◌, ◌++◌, ◌==◌,
  if◌then◌else◌, length,
}

-- `DirectoryFilesystemMemory`, `CheckpointFilesystemMemory`, or a memory of another type
pub data Locator (Directory Manifest : Type 0) : Type 0 where
  directory : Directory → Locator Directory Manifest
  checkpoint : Directory → Manifest → Locator Directory Manifest
  unsupported : Locator Directory Manifest

pub record Memory (Directory Manifest : Type 0) : Type 0 where
  pub base_memory_ids : List ℕ
  pub locator : Locator Directory Manifest

-- `MemorySource`
pub data Source (Directory Manifest : Type 0) : Type 0 where
  directory_source : ℕ → Directory → Source Directory Manifest
  checkpoint_source : ℕ → Directory → Manifest → Source Directory Manifest

abbrev pub memory_id : {Directory Manifest : Type 0} → Source Directory Manifest → ℕ
memory_id (directory_source id path) = id
memory_id (checkpoint_source id path manifest) = id

pub data PlanError : Type 0 where
  dependency_cycle missing unavailable unsupported_type : ℕ → PlanError

-- `out_of_fuel` stands for a recursion that does not end.
pub data Result (A : Type 0) : Type 0 where
  ok : A → Result A
  err : PlanError → Result A
  out_of_fuel : Result A

abbrev pub mem : ℕ → List ℕ → Bool
mem x [] = false
mem x (y ∷ ys) = x == y || mem x ys

-- `set.remove`, of an element that is there once
abbrev pub remove : ℕ → List ℕ → List ℕ
remove x [] = []
remove x (y ∷ ys) = let rest = remove x ys in if x == y then ys else y ∷ rest

-- `dict.fromkeys`: the first of each
abbrev pub dedup_after : List ℕ → List ℕ → List ℕ
dedup_after seen [] = []
dedup_after seen (x ∷ xs) =
    let rest = dedup_after seen xs in
    let next = dedup_after (x ∷ seen) xs in if mem x seen then rest else x ∷ next

-- The locals of `resolve_memory_sources`.
pub record Progress (Directory Manifest : Type 0) : Type 0 where
  pub sources : List (Source Directory Manifest)
  pub resolving : List ℕ
  pub resolved : List ℕ

module _ {Directory Manifest : Type 0} (get : ℕ → Option (Memory Directory Manifest))
    (is_dir : Directory → Bool) where
  -- The end of `resolve`: the source is appended and the id resolved.
  append_source :
      ℕ
      → Bool
      → Source Directory Manifest
      → Progress Directory Manifest
      → Result (Progress Directory Manifest)
  append_source id available source s =
      if available
      then ok (record s {
        sources = s.sources ++ source ∷ [];
        resolving = remove id s.resolving;
        resolved = s.resolved ++ id ∷ [];
      })
      else err (unavailable id)

  finish :
      ℕ
      → Locator Directory Manifest
      → Result (Progress Directory Manifest)
      → Result (Progress Directory Manifest)
  unfolding append_source
  finish id (directory path) (ok s) = append_source id (is_dir path) (directory_source id path) s
  finish id (checkpoint path manifest) (ok s) =
      append_source id (is_dir path) (checkpoint_source id path manifest) s
  finish id unsupported (ok s) = err (unsupported_type id)
  finish id locator (err e) = err e
  finish id locator out_of_fuel = out_of_fuel

  -- The loop over some ids, for the function that resolves one.
  unfoldable pub resolve_each :
      (ℕ → Progress Directory Manifest → Result (Progress Directory Manifest))
      → List ℕ
      → Progress Directory Manifest
      → Result (Progress Directory Manifest)
  resolve_each resolve_one [] s = ok s
  resolve_each resolve_one (id ∷ ids) s = elim (resolve_one id s) [
    | ok s' ↦ resolve_each resolve_one ids s'
    | err e ↦ err e
    | out_of_fuel ↦ out_of_fuel
  ]

  -- `resolve`, with fuel for its depth
  unfoldable pub resolve :
      ℕ → ℕ → Progress Directory Manifest → Result (Progress Directory Manifest)
  unfolding finish
  resolve zero id s = out_of_fuel
  resolve (suc fuel) id s = elim (mem id s.resolved) [
    | true ↦ ok s
    | false ↦ elim (mem id s.resolving) [
      | true ↦ err (dependency_cycle id)
      | false ↦ elim (get id) [
        | none ↦ err (missing id)
        | some memory ↦ finish id memory.locator (
            resolve_each (resolve fuel) memory.base_memory_ids
              (record s { resolving = id ∷ s.resolving }))
      ]
    ]
  ]

  unfoldable pub resolve_memory_sources : ℕ → List ℕ → Result (Progress Directory Manifest)
  resolve_memory_sources fuel memory_ids =
      resolve_each (resolve fuel) (dedup_after [] memory_ids)
        (record { sources = []; resolving = []; resolved = [] })
