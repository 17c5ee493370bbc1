-- ===== src/Protocol/Frame/Shape.antt =====
-- What `read` returns is one frame.
use gaze_lens.Prelude.{
  ℕ, ◌+◌, ◌≤◌, ◌≡◌, ◌≢◌, refl, ap, sym, ◌∙◌, Bool, true, false, List, [], ◌∷◌, ◌++◌, none, some,
  Text, length, length-append, All, All-append, arith, ok, ◌⊎◌, Option-cases, Result-cases,
  append_assoc, append-nil, Result, inl, inr, ℕ_eq,
}
use gaze_lens.Protocol.Errors.{Error}
use gaze_lens.Protocol.Frame.{FrameBuffer, Chunk, newline_at, admit, store, push, finish, read_from}

abbrev pub NoNewline : Text → Type 0
NoNewline = All (λ b. b ≢ 10)

-- A body without a newline, a newline behind it, and `max` bytes at most.
pub record IsFrame (max : ℕ) (bytes : Text) : Type 0 where
  pub body : Text
  pub ends : bytes ≡ body ++ 10 ∷ []
  pub one_line : NoNewline body
  pub fits : length bytes ≤ max

pub newline_none : (bs : Text) → newline_at bs ≡ none → NoNewline bs
unfolding newline_at
newline_none [] h = tt
newline_none (b ∷ bs) h = (ground arith, newline_none bs (ground arith))

-- A first newline in the last place.
pub newline_last :
    (bs : Text) (i : ℕ)
    → newline_at bs ≡ some i
    → i + 1 ≡ length bs
    → (body : Text) × (bs ≡ body ++ 10 ∷ []) × NoNewline body
unfolding newline_at
newline_last [] i h e = absurd (ground arith)
newline_last (b ∷ []) i h e = ([], ground arith, tt)
newline_last (b ∷ c ∷ bs) i h e = elim (Option-cases (newline_at (c ∷ bs))) [
  | inl rest ↦ absurd (ground arith)
  | inr (j, rest) ↦
      let (body, ends, free) = newline_last (c ∷ bs) j rest (ground arith) in
      (b ∷ body, ground arith, (ground arith, free))
]

-- A buffer that is open for more: no newline yet, and nothing failed.
pub record IsFilling (b : FrameBuffer) : Type 0 where
  pub unfinished : b.finished ≡ false
  pub sound : b.failed ≡ false
  pub open_line : NoNewline b.bytes

-- What the checks of a push let through.
pub record IsAdmitted (b : FrameBuffer) (chunk : Text) (ends : Bool) : Type 0 where
  pub fits : length (b.bytes ++ chunk) ≤ b.max
  pub way :
      ((ends ≡ false) × NoNewline chunk)
      ⊎ ((ends ≡ true) × ((body : Text) × (chunk ≡ body ++ 10 ∷ []) × NoNewline body))

IsAdmitted-admit :
    (b : FrameBuffer) (chunk : Text) (ends : Bool)
    → b.finished ≡ false
    → admit b chunk ≡ ok ends
    → IsAdmitted b chunk ends
unfolding admit
IsAdmitted-admit b chunk ends open_still h = elim (Option-cases (newline_at chunk)) [
  | inl e ↦ record {
    fits = ground (arith, length-append b.bytes chunk);
    way = inl (ground arith, newline_none chunk e);
  }
  | inr (i, e) ↦ record {
    fits = ground (arith, length-append b.bytes chunk);
    way = inr (ground arith, newline_last chunk i e (ground arith));
  }
]

-- The two ways in which a push succeeds.
pub record IsStored (b : FrameBuffer) (chunk : Text) (b' : FrameBuffer) (ends : Bool) : Type 0 where
  pub grown : b' ≡ record b { bytes = b.bytes ++ chunk; finished = ends; failed = false }
  pub admitted : IsAdmitted b chunk ends

pub IsStored-push :
    (b : FrameBuffer) (chunk : Text) (allocates : Bool) (b' : FrameBuffer) (ends : Bool)
    → IsFilling b
    → push b chunk allocates ≡ (b', ok ends)
    → IsStored b chunk b' ends
unfolding store push
IsStored-push b chunk allocates b' ends f h = elim (Result-cases (admit b chunk)) [
  | inl (e, bad) ↦ absurd (ground (arith, f.unfinished, f.sound))
  | inr (flag, good) ↦
      let same : flag ≡ ends = ground (arith, f.unfinished, f.sound) in
      record {
        grown = ground (arith, f.unfinished, f.sound);
        admitted = IsAdmitted-admit b chunk ends f.unfinished (good ∙ ap ok same);
      }
]

abbrev pub stream : List Chunk → Text
stream [] = []
stream (c ∷ cs) = c.bytes ++ stream cs

-- The bytes are those of the first chunks, whole, behind what was there.
pub record IsReceived (before : Text) (chunks : List Chunk) (bytes : Text) : Type 0 where
  pub earlier : List Chunk
  pub later : List Chunk
  pub split : chunks ≡ earlier ++ later
  pub whole : bytes ≡ before ++ stream earlier

module _ (b : FrameBuffer) (chunk : Chunk) (chunks : List Chunk) where
  -- The frame ends with this chunk.
  ended :
      (b' : FrameBuffer) (bytes : Text)
      → IsFilling b
      → IsStored b chunk.bytes b' true
      → finish b' ≡ ok bytes
      → IsFrame b.max bytes × IsReceived b.bytes (chunk ∷ chunks) bytes
  unfolding finish
  ended b' bytes f s h =
      let all_of : bytes ≡ b.bytes ++ chunk.bytes = ground (arith, s.grown) in
      elim s.admitted.way [
        | inl (never, _) ↦ absurd (ground arith)
        | inr (_, (body, ends, free)) ↦ (
          record {
            body = b.bytes ++ body;
            ends = rw (all_of, ends) (sym (append_assoc b.bytes body _));
            one_line = All-append (λ x. x ≢ 10) b.bytes body f.open_line free;
            fits = rw all_of s.admitted.fits;
          },
          record {
            earlier = chunk ∷ [];
            later = chunks;
            split = refl;
            whole = rw (append-nil chunk.bytes) all_of;
          },
        )
      ]

  -- The frame goes on behind this chunk.
  goes_on :
      (b' : FrameBuffer)
      → IsFilling b
      → IsStored b chunk.bytes b' false
      → IsFilling b' × (b'.bytes ≡ b.bytes ++ chunk.bytes) × (b'.max ≡ b.max)
  goes_on b' f s = elim s.admitted.way [
    | inl (_, free) ↦ rw s.grown (
      record {
        unfinished = refl;
        sound = refl;
        open_line = All-append (λ x. x ≢ 10) b.bytes chunk.bytes f.open_line free;
      },
      refl,
      refl,
    )
    | inr (never, _) ↦ absurd (ground arith)
  ]

-- One round of the loop that reads.
module _ (b : FrameBuffer) (chunk : Chunk) (chunks : List Chunk) (b' : FrameBuffer)
    (answer : Result Error Bool) where
  round :
      push b chunk.bytes chunk.allocates ≡ (b', answer)
      → {bytes : Text} → read_from b (chunk ∷ chunks) ≡ ok bytes
      → ((answer ≡ ok true) × (finish b' ≡ ok bytes))
        ⊎ ((answer ≡ ok false) × (read_from b' chunks ≡ ok bytes))
  unfolding read_from
  round p h = ground arith

pub read_from-IsFrame :
    (b : FrameBuffer) (chunks : List Chunk) (bytes : Text)
    → IsFilling b
    → read_from b chunks ≡ ok bytes
    → IsFrame b.max bytes × IsReceived b.bytes chunks bytes
unfolding read_from
read_from-IsFrame b [] bytes f h = absurd (ground arith)
read_from-IsFrame b (chunk ∷ chunks) bytes f h =
    let out = push b chunk.bytes chunk.allocates in
    elim (round b chunk chunks out.0 out.1 refl h) [
      | inl (answer, done) ↦
          ended b chunk chunks out.0 bytes f
            (IsStored-push b chunk.bytes chunk.allocates out.0 true f (λ i. (out.0, answer i))) done
      | inr (answer, more) ↦
          let (f', grown, same) =
            goes_on b chunk chunks out.0 f (
              IsStored-push b chunk.bytes chunk.allocates out.0 false f (λ i. (out.0, answer i))) in
          let (frame, r) = read_from-IsFrame out.0 chunks bytes f' more in
          (
            rw (← same) frame,
            record {
              earlier = chunk ∷ r.earlier;
              later = r.later;
              split = ap (λ cs. chunk ∷ cs) r.split;
              whole = rw (r.whole, grown) (append_assoc b.bytes chunk.bytes (stream r.earlier));
            },
          )
    ]
