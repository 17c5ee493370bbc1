-- ===== src/Protocol/Frame/Chunks.antt =====
-- However a frame is cut into chunks, `read` returns it.
use gaze_lens.Prelude.{
  ℕ, ◌≤◌, ◌<◌, ◌≡◌, ◌≢◌, ◌↔◌, refl, ap, sym, ◌∙◌, true, false, List, [], ◌∷◌, ◌++◌, none, some,
  Text, length, length-append, All, All-append, All-prefix, arith, ok, append_assoc, append-nil,
  ◌⊎◌, inl, inr,
}
use gaze_lens.Protocol.Bounds.{frame_bytes}
use gaze_lens.Protocol.Frame.{FrameBuffer, Chunk, new, newline_at, push, finish, read_from, read}
use gaze_lens.Protocol.Frame.Shape.{
  NoNewline, IsFrame, IsFilling, IsReceived, stream, read_from-IsFrame,
}

newline_at-free : (bs : Text) → NoNewline bs → newline_at bs ≡ none
unfolding newline_at
newline_at-free [] h = refl
newline_at-free (b ∷ bs) (n, h) = ground (arith, newline_at-free bs h)

newline_at-last : (bs : Text) → NoNewline bs → newline_at (bs ++ 10 ∷ []) ≡ some (length bs)
unfolding newline_at
newline_at-last [] h = ground arith
newline_at-last (b ∷ bs) (n, h) = ground (arith, newline_at-last bs h)

-- A cut of a frame before its end: no newline in front, and a frame's end behind.
split_frame :
    (xs ys body : Text)
    → ys ≢ []
    → xs ++ ys ≡ body ++ 10 ∷ []
    → NoNewline body
    → NoNewline xs × ((rest : Text) × (ys ≡ rest ++ 10 ∷ []) × NoNewline rest)
split_frame [] ys body n e free = (tt, (body, e, free))
split_frame (x ∷ []) ys [] n e free = absurd (n (ground arith))
split_frame (x ∷ y ∷ xs) ys [] n e free = absurd (ground arith)
split_frame (x ∷ xs) ys (b ∷ body) n e (m, free) =
    let (here, behind) = split_frame xs ys body n (ground arith) free in
    ((ground arith, here), behind)

-- A chunk that the loop can take.
pub record IsLive (c : Chunk) : Type 0 where
  pub nonempty : c.bytes ≢ []
  pub allocates : c.allocates ≡ true

module _ (b : FrameBuffer) (f : IsFilling b) (bounded : b.max ≤ frame_bytes) where
  push-inside :
      (chunk : Text)
      → NoNewline chunk
      → length (b.bytes ++ chunk) ≤ b.max
      → push b chunk true ≡ (record b { bytes = b.bytes ++ chunk }, ok false)
  unfolding push
  push-inside chunk free fits =
      ground (arith, f.unfinished, f.sound, newline_at-free chunk free, length-append b.bytes chunk)

  push-end :
      (body : Text)
      → NoNewline body
      → length (b.bytes ++ (body ++ 10 ∷ [])) ≤ b.max
      → push b (body ++ 10 ∷ []) true
        ≡ (record b { bytes = b.bytes ++ (body ++ 10 ∷ []); finished = true }, ok true)
  unfolding push
  push-end body free fits = ground (
    arith,
    f.unfinished,
    f.sound,
    newline_at-last body free,
    length-append body (10 ∷ []),
    length-append b.bytes (body ++ 10 ∷ []),
  )

  IsFilling-inside :
      (chunk : Text) → NoNewline chunk → IsFilling (record b { bytes = b.bytes ++ chunk })
  IsFilling-inside chunk free = record {
    unfinished = f.unfinished;
    sound = f.sound;
    open_line = All-append (λ x. x ≢ 10) b.bytes chunk f.open_line free;
  }

list_cases : (xs : Text) → (xs ≡ []) ⊎ ((x : ℕ) × (ys : Text) × (xs ≡ x ∷ ys))
list_cases [] = inl refl
list_cases (x ∷ xs) = inr (x, xs, refl)

stream_nonempty : (c : Chunk) (cs : List Chunk) → c.bytes ≢ [] → stream (c ∷ cs) ≢ []
stream_nonempty c cs n e = elim (list_cases c.bytes) [
  | inl none_here ↦ n none_here
  | inr (x, xs, some_here) ↦ ground arith
]

module _ (b b' : FrameBuffer) (c : Chunk) (cs : List Chunk) (n : c.bytes ≢ []) where
  step_on : push b c.bytes c.allocates ≡ (b', ok false) → read_from b (c ∷ cs) ≡ read_from b' cs
  unfolding read_from
  step_on p = ground arith

  step_end : push b c.bytes c.allocates ≡ (b', ok true) → read_from b (c ∷ cs) ≡ finish b'
  unfolding read_from
  step_end p = ground arith

nil_ne_frame : (body : Text) → ¬ (◌≡◌ {A = Text} [] (body ++ 10 ∷ []))
nil_ne_frame [] e = cc
nil_ne_frame (b ∷ body) e = cc

-- The whole frame, chunk by chunk.
read_from-frame :
    (b : FrameBuffer) (earlier later : List Chunk) (body : Text)
    → IsFilling b
    → b.max ≤ frame_bytes
    → All IsLive earlier
    → stream earlier ≡ body ++ 10 ∷ []
    → NoNewline body
    → length (b.bytes ++ stream earlier) ≤ b.max
    → read_from b (earlier ++ later) ≡ ok (b.bytes ++ stream earlier)
unfolding finish
read_from-frame b [] later body f m live e free fits = absurd (nil_ne_frame body e)
read_from-frame b (c ∷ []) later body f m (l, live) e free fits =
    let whole : c.bytes ≡ body ++ 10 ∷ [] = sym (append-nil c.bytes) ∙ e in
    let fits' : length (b.bytes ++ (body ++ 10 ∷ [])) ≤ b.max = rw e at fits in
    let pushed : push b c.bytes c.allocates
        ≡ (record b { bytes = b.bytes ++ (body ++ 10 ∷ []); finished = true }, ok true) =
      rw (whole, l.allocates) (push-end b f m body free fits') in
    step_end b _ c later l.nonempty pushed ∙ rw e (ground (arith, f.sound))
read_from-frame b (c ∷ d ∷ cs) later body f m (l, (k, live)) e free fits =
    let (inside, (rest, ends, free')) =
      split_frame c.bytes (stream (d ∷ cs)) body (stream_nonempty d cs k.nonempty) e free in
    let b' : FrameBuffer = record b { bytes = b.bytes ++ c.bytes } in
    let fits' : length (b.bytes ++ c.bytes) ≤ b.max = omega (
      arith,
      length-append b.bytes c.bytes,
      length-append c.bytes (stream (d ∷ cs)),
      length-append b.bytes (stream (c ∷ d ∷ cs)),
    ) in
    let pushed : push b c.bytes c.allocates ≡ (b', ok false) =
      rw l.allocates (push-inside b f m c.bytes inside fits') in
    let regroup : (b.bytes ++ c.bytes) ++ stream (d ∷ cs) ≡ b.bytes ++ stream (c ∷ d ∷ cs) =
      append_assoc b.bytes c.bytes (stream (d ∷ cs)) in
    step_on b b' c (d ∷ cs ++ later) l.nonempty pushed
    ∙ read_from-frame b' (d ∷ cs) later rest (IsFilling-inside b f m c.bytes inside) m (k, live)
        ends free' (rw regroup fits)
    ∙ ap ok regroup

-- If no allocation fails and every read brings bytes, then the loop that reads a frame returns
-- `bytes` exactly when the limit lies between 1 and 1 MiB, `bytes` is one line of at most that many
-- bytes, newline included, and `bytes` is all that the first reads brought, whatever the cuts
-- between them.
pub read_iff :
    (max : ℕ) (chunks : List Chunk) (bytes : Text)
    → All IsLive chunks
    → (read max chunks ≡ ok bytes)
      ↔ ((0 < max) × (max ≤ frame_bytes) × IsFrame max bytes × IsReceived [] chunks bytes)
unfolding read new
read_iff max chunks bytes live = (sound, complete)
  where
    empty : FrameBuffer
    empty = record { bytes = []; max = max; finished = false; failed = false }

    filling : IsFilling empty
    filling = record { unfinished = refl; sound = refl; open_line = tt }

    sound :
        read max chunks ≡ ok bytes
        → (0 < max) × (max ≤ frame_bytes) × IsFrame max bytes × IsReceived [] chunks bytes
    sound h =
        let (frame, received) = read_from-IsFrame empty chunks bytes filling (ground arith) in
        (ground arith, ground arith, frame, received)

    complete :
        (0 < max) × (max ≤ frame_bytes) × IsFrame max bytes × IsReceived [] chunks bytes
        → read max chunks ≡ ok bytes
    complete (p, q, frame, r) =
        let live' = rw r.split at live in
        let run =
          read_from-frame empty r.earlier r.later frame.body filling q
            (All-prefix IsLive r.earlier r.later live') (sym r.whole ∙ frame.ends) frame.one_line
            (rw (← r.whole) frame.fits) in
        rw (r.split, r.whole) (ground (arith, run))
