-- ===== src/Logs/Tail/Offset.antt =====
-- Where the tail of a file starts, src/source/log/local_log.rs: the search backwards in chunks
-- against one search of the whole file.
use gaze_lens.Prelude.{
  ℕ, zero, suc, ◌+◌, ◌-◌, ◌≤◌, ◌<◌, ◌≡◌, refl, sym, ap, ◌∙◌, ◌⊎◌, inl, inr, true, false, ◌==◌, ℕ_eq,
  ℕ_discrete, if◌then◌else◌, Text, [], ◌∷◌, ◌++◌, append_assoc, some, length, length-append,
  Bool-cases, arith,
}
use gaze_lens.Logs.Tail.{
  read_chunk_bytes, newline, min, take, reverse, read_capped, Found, at_offset, seen_so_far,
  scan_chunk, scan_back, target_newlines, tail_start_offset,
}
use gaze_lens.Logs.Tail.Bytes.{
  newlines, take-skip, length-take_lem, take-zero, take_all, reverse-append, length-reverse,
  reverse-reverse, newlines-reverse,
}

-- Scanned to its end, and then on.
abbrev then_scan : Found → (ℕ → Found) → Found
then_scan (at_offset o) on = at_offset o
then_scan (seen_so_far m) on = on m

scan-append :
    (target start : ℕ) (xs ys : Text) (seen : ℕ)
    → scan_chunk target start (xs ++ ys) seen
      ≡ then_scan (scan_chunk target (start + length ys) xs seen) (scan_chunk target start ys)
unfolding scan_chunk
scan-append target start [] ys seen = refl
scan-append target start (x ∷ xs) ys seen = elim (Bool-cases (x == newline)) [
  | inl is ↦ elim (Bool-cases (suc seen == target)) [
    | inl last ↦ rw (is, last) (ap at_offset (omega (arith, length-append xs ys)))
    | inr more ↦ rw (is, more) (scan-append target start xs ys (suc seen))
  ]
  | inr other ↦ rw other (scan-append target start xs ys seen)
]

abbrev offset_of : Found → ℕ
offset_of (at_offset o) = o
offset_of (seen_so_far m) = 0

min_bounds : (n : ℕ) → (1 ≤ min (suc n) read_chunk_bytes) × (min (suc n) read_chunk_bytes ≤ suc n)
min_bounds n = ground arith

scan_step :
    (target seen : ℕ) (file : Text) (pos start len : ℕ)
    → start + len ≡ pos
    → pos ≤ length file
    → scan_chunk target 0 (reverse (take pos file)) seen
      ≡ then_scan
          (scan_chunk target start (reverse (read_capped file start len)) seen)
          (scan_chunk target 0 (reverse (take start file)))
scan_step target seen file pos start len e k =
    let at_start : length (reverse (take start file)) ≡ start =
      length-reverse (take start file) ∙ length-take_lem start file (omega (arith, e, k)) in
    let from_zero : 0 + length (reverse (take start file)) ≡ start = omega (arith, at_start) in
    rw
      (
        sym e,
        take-skip start len file,
        reverse-append (take start file) (read_capped file start len),
        scan-append target 0 (reverse (read_capped file start len)) (reverse (take start file))
            seen,
        from_zero,
      )
      refl

scanned-on :
    (fuel : ℕ) (file : Text) (target start : ℕ) (f : Found) (on : ℕ → Found)
    → ((m : ℕ) → scan_back fuel file target m start ≡ some (offset_of (on m)))
    → (elim f [ at_offset o ↦ some o | seen_so_far m ↦ scan_back fuel file target m start ])
      ≡ some (offset_of (then_scan f on))
scanned-on fuel file target start (at_offset o) on h = refl
scanned-on fuel file target start (seen_so_far m) on h = h m

scan_back-is :
    (fuel : ℕ) (file : Text) (target seen pos : ℕ)
    → pos ≤ fuel
    → pos ≤ length file
    → scan_back fuel file target seen pos
      ≡ some (offset_of (scan_chunk target 0 (reverse (take pos file)) seen))
unfolding scan_back
scan_back-is zero file target seen zero h k = rw (take-zero file) refl
scan_back-is zero file target seen (suc pos) h k = absurd (omega (arith, h))
scan_back-is (suc fuel) file target seen zero h k = rw (take-zero file) refl
scan_back-is (suc fuel) file target seen (suc before) h k =
    let start = suc before - min (suc before) read_chunk_bytes in
    let len = min (suc before) read_chunk_bytes in
    let some_read : 1 ≤ len = (min_bounds before).0 in
    let in_pos : len ≤ suc before = (min_bounds before).1 in
    rw (scan_step target seen file (suc before) start len (omega (arith, in_pos)) k) (
      scanned-on fuel file target start
        (scan_chunk target start (reverse (read_capped file start len)) seen)
        (scan_chunk target 0 (reverse (take start file)))
        (λ m.
          scan_back-is fuel file target m start (omega (arith, some_read, h)) (omega (arith, k))))

-- The offset leaves the last lines: nothing but the whole file when it has too few newlines, and
-- else what follows the newline that stands so many from the end.
pub record Split (file : Text) (target offset : ℕ) : Type 0 where
  pub before : Text
  pub kept : Text
  pub cut : file ≡ before ++ newline ∷ kept
  pub is_offset : offset ≡ length before + 1
  pub has_lines : newlines kept + 1 ≡ target

abbrev pub IsTailStart : Text → ℕ → ℕ → Type 0
IsTailStart file target offset =
    ((offset ≡ 0) × (newlines file < target)) ⊎ Split file target offset

-- What a scan of bytes that run backwards ends with.
record Scanned (xs : Text) (target seen offset : ℕ) : Type 0 where
  later : Text
  earlier : Text
  cut : xs ≡ later ++ newline ∷ earlier
  is_offset : offset ≡ length earlier + 1
  has_lines : seen + newlines later + 1 ≡ target

abbrev IsEnd : Text → ℕ → ℕ → Found → Type 0
IsEnd xs target seen (at_offset o) = Scanned xs target seen o
IsEnd xs target seen (seen_so_far m) = seen + newlines xs < target

IsEnd-cons :
    (x : ℕ) (xs : Text) (target seen now : ℕ) (f : Found)
    → ((ys : Text) → seen + newlines (x ∷ ys) ≡ now + newlines ys)
    → IsEnd xs target now f
    → IsEnd (x ∷ xs) target seen f
IsEnd-cons x xs target seen now (at_offset o) more h = record {
  later = x ∷ h.later;
  earlier = h.earlier;
  cut = ap (λ ys. x ∷ ys) h.cut;
  is_offset = h.is_offset;
  has_lines = omega (arith, more h.later, h.has_lines);
}
IsEnd-cons x xs target seen now (seen_so_far m) more h = omega (arith, more xs, h)

newline_is : (x : ℕ) → x == newline ≡ true → x ≡ newline
unfolding ℕ_discrete
newline_is x h = ground arith

newlines_more :
    (x : ℕ) (seen : ℕ)
    → x == newline ≡ true
    → (ys : Text) → seen + newlines (x ∷ ys) ≡ suc seen + newlines ys
unfolding newlines
newlines_more x seen is ys = ground arith

newlines_same :
    (x : ℕ) (seen : ℕ)
    → x == newline ≡ false
    → (ys : Text) → seen + newlines (x ∷ ys) ≡ seen + newlines ys
unfolding newlines
newlines_same x seen other ys = ground arith

scan_chunk-IsEnd :
    (target : ℕ) (xs : Text) (seen : ℕ)
    → seen < target
    → IsEnd xs target seen (scan_chunk target 0 xs seen)
unfolding scan_chunk newlines
scan_chunk-IsEnd target [] seen h = omega (arith, h)
scan_chunk-IsEnd target (x ∷ xs) seen h = elim (Bool-cases (x == newline)) [
  | inl is ↦ elim (Bool-cases (suc seen == target)) [
    | inl last ↦
        rw (is, last)
          (record {
            later = [];
            earlier = xs;
            cut = ap (λ b. b ∷ xs) (newline_is x is);
            is_offset = omega arith;
            has_lines = ground arith;
          })
    | inr more ↦
        let below : suc seen < target = ground arith in
        rw (is, more)
          (IsEnd-cons x xs target seen (suc seen) (scan_chunk target 0 xs (suc seen))
            (newlines_more x seen is) (scan_chunk-IsEnd target xs (suc seen) below))
  ]
  | inr other ↦ rw other (
      IsEnd-cons x xs target seen seen (scan_chunk target 0 xs seen) (newlines_same x seen other)
        (scan_chunk-IsEnd target xs seen h))
]

IsTailStart-Found :
    (file : Text) (target : ℕ) (f : Found)
    → IsEnd (reverse file) target 0 f
    → IsTailStart file target (offset_of f)
unfolding reverse
IsTailStart-Found file target (at_offset o) h = inr (record {
  before = reverse h.earlier;
  kept = reverse h.later;
  cut =
      sym (reverse-reverse file)
      ∙ ap reverse h.cut
      ∙ reverse-append h.later (newline ∷ h.earlier)
      ∙ append_assoc (reverse h.earlier) (newline ∷ []) (reverse h.later);
  is_offset = omega (arith, h.is_offset, length-reverse h.earlier);
  has_lines = omega (arith, h.has_lines, newlines-reverse h.later);
})
IsTailStart-Found file target (seen_so_far m) h =
    inl (refl, omega (arith, h, newlines-reverse file))

one_more :
    (xs : Text) (lines : ℕ)
    → 0 < lines
    → 0 < (elim xs [ [] ↦ lines | last ∷ _ ↦ if last == newline then suc lines else lines ])
one_more [] lines h = h
one_more (x ∷ xs) lines h = ground arith

target_above : (file : Text) (lines : ℕ) → 0 < lines → 0 < target_newlines file lines
unfolding target_newlines
target_above file lines h = one_more (read_capped file (length file - 1) 1) lines h

-- A tail of one line or more: the search backwards in chunks ends with an offset. When the file
-- has fewer newlines than are to be passed, that is 0; else the offset follows a newline after
-- which the file has one newline less than are to be passed.
pub IsTailStart-tail_start_offset :
    (file : Text) (lines : ℕ)
    → 0 < lines
    → (offset : ℕ) × ((tail_start_offset file lines ≡ some offset)
        × IsTailStart file (target_newlines file lines) offset)
unfolding tail_start_offset
IsTailStart-tail_start_offset file lines h =
    let target = target_newlines file lines in
    let whole = scan_chunk target 0 (reverse file) 0 in
    let ends = scan_chunk-IsEnd target (reverse file) 0 (target_above file lines h) in
    let scanned : scan_back (length file) file target 0 (length file) ≡ some (offset_of whole) =
      scan_back-is (length file) file target 0 (length file) (omega arith) (omega arith)
      ∙ ap (λ xs. some (offset_of (scan_chunk target 0 (reverse xs) 0))) (take_all file) in
    (offset_of whole, (scanned, IsTailStart-Found file target whole ends))
