-- ===== src/Workspace/Transport.antt =====
-- transport.py of agent-host/src/reframe_agent_host/workspace: frames on a byte stream. A byte is a
-- number; the JSON codec of Python is an argument, and so is what the operating system answers.
pub mod Writes
pub mod Frames
pub mod Completes
use reframe_web.Prelude.{
  ℕ, zero, suc, ◌+◌, ◌-◌, ◌*◌, ◌/◌, ◌%◌, ◌^◌, min, Bool, true, false, Option, none, some, List, [],
  ◌∷◌, ◌++◌, ltb, leb, ◌==◌, if◌then◌else◌, length, take, drop, is_nil,
}

abbrev pub max_frame_bytes : ℕ
max_frame_bytes = 16777216

-- `WorkspaceError` and `WorkspaceTransportError`, by their messages
pub data Failure : Type 0 where
  request_too_large response_too_large invalid_header not_json not_an_object : Failure
  write_failed stopped_accepting flush_failed read_failed stream_closed : Failure

-- An operation returns, raises, or still waits for the stream.
pub data Result (A : Type 0) : Type 0 where
  ok : A → Result A
  err : Failure → Result A
  blocked : Result A

-- `stream.write` and `stream.read` answer with a count, with nothing, or by an `OSError`.
pub data Answer : Type 0 where
  bytes : ℕ → Answer
  nothing : Answer
  os_error : Answer

-- `json.dumps`, `json.loads` and `isinstance(value, dict)`
pub record Codec (Json : Type 0) : Type 0 where
  pub dumps : Json → List ℕ
  pub loads : List ℕ → Option Json
  pub is_object : Json → Bool

-- `struct.pack("<I", n)` and its inverse
unfoldable pub pack : ℕ → List ℕ
pack n = n % 256 ∷ n / 256 % 256 ∷ n / 65536 % 256 ∷ n / 16777216 % 256 ∷ []

unfoldable pub unpack : List ℕ → Option ℕ
unpack (a ∷ b ∷ c ∷ d ∷ []) = some (a + 256 * b + 65536 * c + 16777216 * d)
unpack _ = none

module _ {Json : Type 0} (codec : Codec Json) where
  unfoldable pub encode_frame : Json → Result (List ℕ)
  encode_frame payload =
      if ltb max_frame_bytes (length (codec.dumps payload))
      then err request_too_large
      else ok (pack (length (codec.dumps payload)) ++ codec.dumps payload)

-- The loop of `write_encoded_frame` and the flush behind it: what was sent, and the outcome.
unfoldable pub write_remaining : List ℕ → List ℕ → List Answer → Bool → List ℕ × Result (Unit {0})
write_remaining sent [] answers flushes = (sent, if flushes then ok tt else err flush_failed)
write_remaining sent (b ∷ bs) [] flushes = (sent, blocked)
write_remaining sent (b ∷ bs) (os_error ∷ answers) flushes = (sent, err write_failed)
write_remaining sent (b ∷ bs) (nothing ∷ answers) flushes = (sent, err stopped_accepting)
write_remaining sent (b ∷ bs) (bytes zero ∷ answers) flushes = (sent, err stopped_accepting)
write_remaining sent (b ∷ bs) (bytes (suc n) ∷ answers) flushes =
    write_remaining (sent ++ take (suc n) (b ∷ bs)) (drop (suc n) (b ∷ bs)) answers flushes

abbrev pub write_encoded_frame : List ℕ → List Answer → Bool → List ℕ × Result (Unit {0})
write_encoded_frame frame answers flushes = write_remaining [] frame answers flushes

-- What the peer has sent, and how `stream.read` will answer: a read gives at most what it was asked
-- for and what there is.
pub record Incoming : Type 0 where
  pub data_left : List ℕ
  pub answers : List Answer

-- The loop of `read_exact`, with `left` bytes to go.
unfoldable pub read_loop : ℕ → List ℕ → List ℕ → List Answer → Incoming × Result (List ℕ)
read_loop zero value bs answers = (record { data_left = bs; answers = answers }, ok value)
read_loop (suc left) value bs [] = (record { data_left = bs; answers = [] }, blocked)
read_loop (suc left) value bs (os_error ∷ answers) =
    (record { data_left = bs; answers = answers }, err read_failed)
read_loop (suc left) value bs (nothing ∷ answers) =
    (record { data_left = bs; answers = answers }, err stream_closed)
read_loop (suc left) value bs (bytes n ∷ answers) =
    let chunk = take (min n (suc left)) bs in
    let rest =
      read_loop (suc left - length chunk) (value ++ chunk) (drop (min n (suc left)) bs) answers in
    if is_nil chunk then (record { data_left = bs; answers = answers }, err stream_closed) else rest

unfoldable pub read_exact : Incoming → ℕ → Incoming × Result (List ℕ)
read_exact s left = read_loop left [] s.data_left s.answers

module _ {Json : Type 0} (codec : Codec Json) where
  decode : List ℕ → Result Json
  decode encoded = elim (codec.loads encoded) [
    | none ↦ err not_json
    | some value ↦ if codec.is_object value then ok value else err not_an_object
  ]

  read_body : Incoming × Result (List ℕ) → Incoming × Result Json
  unfolding decode
  read_body (s, ok encoded) = (s, decode encoded)
  read_body (s, err e) = (s, err e)
  read_body (s, blocked) = (s, blocked)

  read_length : Incoming → Option ℕ → Incoming × Result Json
  unfolding read_body
  read_length s none = (s, err invalid_header)
  read_length s (some n) =
      if ltb max_frame_bytes n then (s, err response_too_large) else read_body (read_exact s n)

  read_header : Incoming × Result (List ℕ) → Incoming × Result Json
  unfolding read_length
  read_header (s, ok header) = read_length s (unpack header)
  read_header (s, err e) = (s, err e)
  read_header (s, blocked) = (s, blocked)

  unfoldable pub read_frame : Incoming → Incoming × Result Json
  unfolding read_header
  read_frame s = read_header (read_exact s 4)
