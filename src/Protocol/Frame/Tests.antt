-- ===== src/Protocol/Frame/Tests.antt =====
-- A frame in three reads.
use gaze_lens.Prelude.{ℕ, ◌≡◌, refl, ◌↔◌, ◌≤◌, ◌<◌, true, List, [], ◌∷◌, Text, ok, err, All}
use gaze_lens.Protocol.Errors.{invalid_request, cap_exceeded}
use gaze_lens.Protocol.Bounds.{frame_bytes}
use gaze_lens.Protocol.Frame.{Chunk, read}
use gaze_lens.Protocol.Frame.Shape.{IsFrame, IsReceived}
use gaze_lens.Protocol.Frame.Chunks.{IsLive, read_iff}

abbrev chunk : Text → Chunk
chunk bytes = record { bytes = bytes; allocates = true }

abbrev reads : List Chunk
reads = chunk (123 ∷ []) ∷ chunk (125 ∷ 10 ∷ []) ∷ chunk (99 ∷ []) ∷ []

read_braces : read 16 reads ≡ ok (123 ∷ 125 ∷ 10 ∷ [])
unfolding read
read_braces = refl

-- A byte behind the newline in one chunk, a frame that is too long, a peer that closes.
read_errors :
    (read 16 (chunk (10 ∷ 99 ∷ []) ∷ []) ≡ err invalid_request)
    × (read 2 reads ≡ err cap_exceeded)
    × (read 16 (chunk (123 ∷ []) ∷ []) ≡ err invalid_request)
unfolding read
read_errors = (refl, refl, refl)

live : All IsLive reads
live = (one 123 [], (one 125 (10 ∷ []), (one 99 [], tt)))
  where
    one : (b : ℕ) (bs : Text) → IsLive (chunk (b ∷ bs))
    one b bs = record { nonempty = λ e. cc; allocates = refl }

read_iff_example : (read 16 reads ≡ ok (123 ∷ 125 ∷ 10 ∷ [])) ↔ (
    (◌<◌ 0 16)
    × (16 ≤ frame_bytes)
    × IsFrame 16 (123 ∷ 125 ∷ 10 ∷ [])
    × IsReceived [] reads (123 ∷ 125 ∷ 10 ∷ []))
read_iff_example = read_iff 16 reads (123 ∷ 125 ∷ 10 ∷ []) live
