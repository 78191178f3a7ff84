-- ===== src/Workspace/Transport/Writes.antt =====
-- What `write_encoded_frame` has put on the stream.
use reframe_web.Prelude.{
  ℕ, zero, suc, ◌≤◌, ◌≡◌, refl, ap, sym, ◌∙◌, Bool, true, List, [], ◌∷◌, ◌++◌, length, take, drop,
  append-nil, append_assoc, take-append-drop, length-drop, All, arith,
}
use reframe_web.Workspace.Transport.{
  Answer, bytes, nothing, os_error, ok, write_remaining, write_encoded_frame,
}

-- An answer that moves at least one byte.
abbrev pub Moves : Answer → Type 0
Moves (bytes zero) = ⊥
Moves (bytes (suc n)) = Unit {0}
Moves nothing = ⊥
Moves os_error = ⊥

write_remaining_lem :
    (sent bs : List ℕ) (answers : List Answer) (flushes : Bool)
    → (unsent : List ℕ) × ((write_remaining sent bs answers flushes).0 ++ unsent ≡ sent ++ bs)
      × ((write_remaining sent bs answers flushes).1 ≡ ok tt → unsent ≡ [])
unfolding write_remaining
write_remaining_lem sent [] answers flushes = ([], refl, λ _. refl)
write_remaining_lem sent (b ∷ bs) [] flushes = (b ∷ bs, refl, λ e. absurd cc)
write_remaining_lem sent (b ∷ bs) (os_error ∷ answers) flushes = (b ∷ bs, refl, λ e. absurd cc)
write_remaining_lem sent (b ∷ bs) (nothing ∷ answers) flushes = (b ∷ bs, refl, λ e. absurd cc)
write_remaining_lem sent (b ∷ bs) (bytes zero ∷ answers) flushes = (b ∷ bs, refl, λ e. absurd cc)
write_remaining_lem sent (b ∷ bs) (bytes (suc n) ∷ answers) flushes =
    let (unsent, e, f) =
      write_remaining_lem (sent ++ take (suc n) (b ∷ bs)) (drop (suc n) (b ∷ bs)) answers flushes in
    (
      unsent,
      e
          ∙ append_assoc sent (take (suc n) (b ∷ bs)) (drop (suc n) (b ∷ bs))
          ∙ ap (◌++◌ sent) (take-append-drop (suc n) (b ∷ bs)),
      f,
    )

-- However the stream splits and ends the writes, what was sent is a prefix of the frame, and it is
-- the whole frame if the call returns.
pub write_encoded_frame_prefix :
    (frame : List ℕ) (answers : List Answer) (flushes : Bool)
    → (unsent : List ℕ) × ((write_encoded_frame frame answers flushes).0 ++ unsent ≡ frame)
      × ((write_encoded_frame frame answers flushes).1 ≡ ok tt → unsent ≡ [])
write_encoded_frame_prefix frame answers flushes = write_remaining_lem [] frame answers flushes

write_all_lem :
    (sent bs : List ℕ) (answers : List Answer)
    → All Moves answers
    → length bs ≤ length answers
    → write_remaining sent bs answers true ≡ (sent ++ bs, ok tt)
unfolding write_remaining
write_all_lem sent [] answers moves h = ap (λ x. (x, ok tt)) (sym (append-nil sent))
write_all_lem sent (b ∷ bs) [] moves h = absurd (omega arith)
write_all_lem sent (b ∷ bs) (os_error ∷ answers) (none_moved, _) h = absurd none_moved
write_all_lem sent (b ∷ bs) (nothing ∷ answers) (none_moved, _) h = absurd none_moved
write_all_lem sent (b ∷ bs) (bytes zero ∷ answers) (none_moved, _) h = absurd none_moved
write_all_lem sent (b ∷ bs) (bytes (suc n) ∷ answers) (_, moves) h =
    write_all_lem (sent ++ take (suc n) (b ∷ bs)) (drop (suc n) (b ∷ bs)) answers moves
      (omega (arith, length-drop n bs))
    ∙ ap (λ x. (x, ok tt))
        (append_assoc sent (take (suc n) (b ∷ bs)) (drop (suc n) (b ∷ bs))
          ∙ ap (◌++◌ sent) (take-append-drop (suc n) (b ∷ bs)))

-- A stream that takes at least one byte of every write, and flushes, takes the whole frame.
pub write_encoded_frame_completes :
    (frame : List ℕ) (answers : List Answer)
    → All Moves answers
    → length frame ≤ length answers
    → write_encoded_frame frame answers true ≡ (frame, ok tt)
write_encoded_frame_completes frame answers moves h = write_all_lem [] frame answers moves h
