-- ===== src/Protocol/Frame.antt =====
-- FrameBuffer of crates/gaze-lens-protocol/src/bounds.rs, and the loop of
-- crates/gaze-lens-server/src/service.rs that fills one from a connection.
pub mod Shape
pub mod Chunks
mod Tests
use gaze_lens.Prelude.{
  ℕ, zero, suc, ◌+◌, ◌^◌, Bool, true, false, not, ◌&&◌, ◌||◌, ◌==◌, ℕ_eq, ℕ_discrete, leb, ltb,
  if◌then◌else◌, Text, List, [], ◌∷◌, ◌++◌, Option, none, some, length, Result, ok, err, ◌>>=◌,
  ◌>>◌,
}
use gaze_lens.Protocol.Errors.{Checked, invalid_request, cap_exceeded}
use gaze_lens.Protocol.Bounds.{require, cap, frame_bytes}

pub record FrameBuffer : Type 0 where
  pub bytes : Text
  pub max : ℕ
  pub finished : Bool
  pub failed : Bool

unfoldable pub new : ℕ → Checked FrameBuffer
new max = do
  require (ltb 0 max && leb max frame_bytes)
  ok (record { bytes = []; max = max; finished = false; failed = false })

-- `usize::checked_add` on a 64-bit machine.
abbrev pub checked_add : ℕ → ℕ → Checked ℕ
checked_add a b = if ltb (a + b) (2 ^ 64) then ok (a + b) else err cap_exceeded

-- The position of the first newline.
unfoldable pub newline_at : Text → Option ℕ
unfolding ℕ_discrete
newline_at [] = none
newline_at (b ∷ rest) =
    if b == 10 then some 0 else elim (newline_at rest) [ none ↦ none | some i ↦ some (suc i) ]

-- What is checked of a chunk before it is stored: whether it ends the frame.
unfoldable pub admit : FrameBuffer → Text → Checked Bool
admit buffer chunk = do
  size ← checked_add (length buffer.bytes) (length chunk)
  cap size buffer.max
  elim (newline_at chunk) [
    | none ↦ ok buffer.finished
    | some i ↦ do require (i + 1 == length chunk); ok true
  ]

-- What is left of a push, by what the checks answered; `allocates` is the answer of
-- `try_reserve_exact`. `finished` is set before the allocation, and `failed` stays set after an error.
unfoldable pub store : FrameBuffer → Text → Bool → Checked Bool → FrameBuffer × Checked Bool
store buffer chunk allocates (err e) = (record buffer { failed = true }, err e)
store buffer chunk false (ok finished) =
    (record buffer { finished = finished; failed = true }, err cap_exceeded)
store buffer chunk true (ok finished) = (
  record buffer { bytes = buffer.bytes ++ chunk; finished = finished; failed = false },
  ok finished,
)

unfoldable pub push : FrameBuffer → Text → Bool → FrameBuffer × Checked Bool
unfolding store admit newline_at
push buffer chunk allocates =
    if buffer.finished || buffer.failed
    then (record buffer { failed = true }, err invalid_request)
    else store buffer chunk allocates (admit buffer chunk)

unfoldable pub finish : FrameBuffer → Checked Text
finish buffer = do require (buffer.finished && not buffer.failed); ok buffer.bytes

-- One `io.read`: the bytes that arrived (none at the end of the stream), and whether the
-- allocation of the push that follows succeeds.
pub record Chunk : Type 0 where
  pub bytes : Text
  pub allocates : Bool

abbrev pub after_push : Checked Text → FrameBuffer × Checked Bool → Checked Text
after_push rest (buffer, err e) = err e
after_push rest (buffer, ok true) = finish buffer
after_push rest (buffer, ok false) = rest

-- The loop of `read`; the list ends where the peer closes the connection.
unfoldable pub read_from : FrameBuffer → List Chunk → Checked Text
read_from buffer [] = err invalid_request
read_from buffer (chunk ∷ rest) =
    let (buffer', answer) = push buffer chunk.bytes chunk.allocates in
    let later = read_from buffer' rest in
    elim chunk.bytes [ [] ↦ err invalid_request | b ∷ bs ↦ after_push later (buffer', answer) ]

unfoldable pub read : ℕ → List Chunk → Checked Text
unfolding new read_from push finish
read max chunks = do buffer ← new max; read_from buffer chunks
