-- ===== src/Tests/Workspace.antt =====
-- Runs of the workspace client.
use reframe_web.Prelude.{
  ℕ, zero, suc, ◌≡◌, refl, Bool, true, Option, none, some, List, [], ◌∷◌, ◌++◌, All, arith,
}
use reframe_web.Workspace.Transport.{
  Answer, bytes, os_error, ok, Codec, pack, unpack, encode_frame, read_frame, read_exact, read_loop,
  write_encoded_frame,
}
use reframe_web.Workspace.Transport.Writes.{
  Moves, write_encoded_frame_prefix, write_encoded_frame_completes,
}
use reframe_web.Workspace.Transport.Frames.{read_frame_round_trip}
use reframe_web.Workspace.Transport.Completes.{read_frame_completes}
use reframe_web.Workspace.Operations.{apply_policy, prefetch, operation_metadata, Request}
use reframe_web.Workspace.Service.{
  success, Attempt, read_failed, responds, returned, outcome_unknown, Daemon, of_outcome, answer,
  settle, attempt_once, attempt_all, request,
}
use reframe_web.Workspace.Service.Policy.{IsPolite, request-IsPolite}
use reframe_web.Workspace.Planning.{Memory, directory, checkpoint, mem, resolve_memory_sources}
use reframe_web.Workspace.Planning.Order.{IsPlanned, resolve_memory_sources_ordered}

-- Payloads that are their own encoding.
abbrev codec : Codec (List ℕ)
codec = record { dumps = λ v. v; loads = λ v. some v; is_object = λ v. true }

abbrev payload : List ℕ
payload = 7 ∷ 8 ∷ 9 ∷ []

abbrev frame : List ℕ
frame = 3 ∷ 0 ∷ 0 ∷ 0 ∷ 7 ∷ 8 ∷ 9 ∷ []

abbrev slow : List Answer
slow = bytes 3 ∷ bytes 1 ∷ bytes 2 ∷ bytes 9 ∷ bytes 1 ∷ bytes 1 ∷ bytes 1 ∷ []

frame_lem : encode_frame codec payload ≡ ok frame
unfolding encode_frame pack
frame_lem = refl

moves_lem : All Moves slow
moves_lem = (tt, (tt, (tt, (tt, (tt, (tt, (tt, tt)))))))

read_frame_completes_example :
    (read_frame codec (record { data_left = frame ++ 5 ∷ []; answers = slow })).1 ≡ ok payload
read_frame_completes_example =
    read_frame_completes codec payload frame (5 ∷ []) slow refl refl frame_lem moves_lem
      (omega arith)

read_lem :
    (read_frame codec (record { data_left = frame ++ 5 ∷ []; answers = slow })).1 ≡ ok payload
unfolding read_frame read_exact read_loop unpack
read_lem = refl

read_frame_round_trip_example :
    (payload ≡ payload)
    × ((read_frame codec (record { data_left = frame ++ 5 ∷ []; answers = slow })).0.data_left
        ≡ 5 ∷ [])
read_frame_round_trip_example =
    read_frame_round_trip codec payload payload frame (5 ∷ []) slow refl frame_lem read_lem

write_encoded_frame_prefix_example :
    (unsent : List ℕ) × ((write_encoded_frame frame (bytes 4 ∷ os_error ∷ []) true).0 ++ unsent
      ≡ frame)
    × ((write_encoded_frame frame (bytes 4 ∷ os_error ∷ []) true).1 ≡ ok tt → unsent ≡ [])
write_encoded_frame_prefix_example = write_encoded_frame_prefix frame (bytes 4 ∷ os_error ∷ []) true

write_encoded_frame_completes_example : write_encoded_frame frame slow true ≡ (frame, ok tt)
write_encoded_frame_completes_example =
    write_encoded_frame_completes frame slow moves_lem (omega arith)

-- Memory 1 is a checkpoint on top of the directory 2.
abbrev catalog : ℕ → Option (Memory ℕ ℕ)
catalog zero = none
catalog (suc zero) = some (record { base_memory_ids = 2 ∷ []; locator = checkpoint 10 77 })
catalog (suc (suc zero)) = some (record { base_memory_ids = []; locator = directory 20 })
catalog (suc (suc (suc n))) = none

catalog_lem : (id : ℕ) (memory : Memory ℕ ℕ) → catalog id ≡ some memory → mem id (1 ∷ 2 ∷ []) ≡ true
catalog_lem zero memory e = absurd cc
catalog_lem (suc zero) memory e = refl
catalog_lem (suc (suc zero)) memory e = refl
catalog_lem (suc (suc (suc n))) memory e = absurd cc

resolve_memory_sources_ordered_example :
    IsPlanned catalog
      (λ path. true)
      (1 ∷ 2 ∷ 1 ∷ [])
      (resolve_memory_sources catalog (λ path. true) 3 (1 ∷ 2 ∷ 1 ∷ []))
resolve_memory_sources_ordered_example =
    resolve_memory_sources_ordered catalog (λ path. true) (1 ∷ 2 ∷ []) (1 ∷ 2 ∷ 1 ∷ []) catalog_lem

-- A client that has sent nothing yet.
abbrev daemon : Daemon ℕ ℕ
daemon = record { connected = Bool.false; request_number = 0; written = [] }

abbrev fails : Attempt ℕ ℕ
fails = read_failed

abbrev answers_with : ℕ → Attempt ℕ ℕ
answers_with n = responds (record { request_id = n; outcome = success 5 })

abbrev always_fits : Request ℕ ℕ → Bool
always_fits r = true

-- The second attempt of a durable mutation brings the value; a process-local one has no second.
retried_lem : (request daemon apply_policy 1 2 always_fits fails (answers_with 1)).1 ≡ returned 5
unfolding request attempt_all attempt_once settle answer of_outcome operation_metadata
retried_lem = refl

not_retried_lem :
    (request daemon prefetch 1 2 always_fits fails (answers_with 1)).1 ≡ outcome_unknown
unfolding request attempt_all attempt_once settle answer of_outcome operation_metadata
not_retried_lem = refl

request-IsPolite_example :
    IsPolite daemon prefetch 2
      (fails ∷ answers_with 1 ∷ [])
      (request daemon prefetch 1 2 always_fits fails (answers_with 1))
request-IsPolite_example = request-IsPolite daemon prefetch 1 2 always_fits fails (answers_with 1)
