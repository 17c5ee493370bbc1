-- ===== src/Logs/Tail.antt =====
-- The tail of a log file, src/source/log/local_log.rs and src/source/log/ssh_log.rs. The file is
-- its bytes; a failure of the operating system is not modelled. UTF-8 is given: whether bytes are
-- valid, and the lossy decoding of a line.
pub mod Bytes
pub mod Offset
pub mod Output
use gaze_lens.Prelude.{
  ℕ, zero, suc, ◌+◌, ◌-◌, Bool, true, false, not, ◌&&◌, ◌||◌, ◌==◌, ℕ_eq, ℕ_discrete, ltb, leb,
  if◌then◌else◌, Text, List, [], ◌∷◌, ◌++◌, map, Option, none, some, length, any, is_empty, Result,
  ok, err,
}
use gaze_lens.Logs.Output.{TruncatedAt, bytes, line_bytes}

abbrev pub read_chunk_bytes : ℕ
read_chunk_bytes = 65536

abbrev pub hard_cap_lines : ℕ
hard_cap_lines = 10000

abbrev pub newline : ℕ
newline = 10

-- `Iterator::min`
abbrev pub min : ℕ → ℕ → ℕ
min a b = if leb a b then a else b

unfoldable pub take : ℕ → Text → Text
take n [] = []
take zero (x ∷ xs) = []
take (suc n) (x ∷ xs) = x ∷ take n xs

unfoldable pub skip : ℕ → Text → Text
skip n [] = []
skip zero (x ∷ xs) = x ∷ xs
skip (suc n) (x ∷ xs) = skip n xs

unfoldable pub reverse : Text → Text
reverse [] = []
reverse (x ∷ xs) = reverse xs ++ x ∷ []

-- `file.seek(start)`, then `read_capped(file, max)`.
abbrev pub read_capped : Text → ℕ → ℕ → Text
read_capped file start max = take max (skip start file)

-- What the search of a chunk ends with: the offset, or the newlines seen.
pub data Found : Type 0 where
  at_offset : ℕ → Found
  seen_so_far : ℕ → Found

-- `for index in (0..chunk.len()).rev()`: the chunk is backwards, so the index of a byte is the
-- number of those after it.
unfoldable pub scan_chunk : ℕ → ℕ → Text → ℕ → Found
unfolding ℕ_discrete
scan_chunk target start [] seen = seen_so_far seen
scan_chunk target start (b ∷ rest) seen =
    let on = scan_chunk target start rest in
    if b == newline
    then (if suc seen == target then at_offset (start + length rest + 1) else on (suc seen))
    else on seen

-- `while pos > 0`, on fuel.
unfoldable pub scan_back : ℕ → Text → ℕ → ℕ → ℕ → Option ℕ
unfolding scan_chunk take skip reverse ℕ_discrete
scan_back zero file target seen zero = some 0
scan_back zero file target seen (suc pos) = none
scan_back (suc fuel) file target seen zero = some 0
scan_back (suc fuel) file target seen (suc before) =
    let pos = suc before in
    let read_len = min pos read_chunk_bytes in
    let start = pos - read_len in
    let chunk = read_capped file start read_len in
    elim (scan_chunk target start (reverse chunk) seen) [
      | at_offset offset ↦ some offset
      | seen_so_far more ↦ scan_back fuel file target more start
    ]

unfoldable pub target_newlines : Text → ℕ → ℕ
unfolding take skip ℕ_discrete
target_newlines file lines = elim (read_capped file (length file - 1) 1) [
  | [] ↦ lines
  | last ∷ _ ↦ if last == newline then suc lines else lines
]

unfoldable pub tail_start_offset : Text → ℕ → Option ℕ
unfolding scan_back target_newlines
tail_start_offset file lines =
    scan_back (length file) file (target_newlines file lines) 0 (length file)

unfoldable pub read_tail_bytes : ℕ → Text → ℕ → Option Text
unfolding tail_start_offset
read_tail_bytes max_total_bytes file lines =
    let offset = tail_start_offset file lines in
    if lines == 0 then some [] else if length file == 0 then some [] else elim offset [
      | none ↦ none
      | some start ↦ some (read_capped file start (suc max_total_bytes))
    ]

-- `raw.split(|byte| *byte == b'\n')`, from a line that is begun.
unfoldable pub split_lines : Text → Text → List Text
unfolding ℕ_discrete
split_lines line [] = line ∷ []
split_lines line (b ∷ rest) = elim (b == newline) [
  | true ↦ line ∷ split_lines [] rest
  | false ↦ split_lines (line ++ b ∷ []) rest
]

unfoldable pub drop_empty : List Text → List Text
drop_empty [] = []
drop_empty (l ∷ rest) = let later = drop_empty rest in if is_empty l then later else l ∷ later

module _ (lossy : Text → Text) where
  unfoldable pub split_and_cap_lines_with_truncation : Text → ℕ → List Text × Bool
  unfolding split_lines drop_empty take
  split_and_cap_lines_with_truncation raw max_line_bytes =
      let lines = drop_empty (split_lines [] raw) in
      (
        map (λ l. lossy (take max_line_bytes l)) lines,
        any (λ l. ltb max_line_bytes (length l)) lines,
      )

pub record LocalLogOutput : Type 0 where
  pub lines : List Text
  pub truncated_at : List TruncatedAt
  pub bytes : ℕ

pub data TailError : Type 0 where
  decode : TailError
  out_of_fuel : TailError

module _ (is_utf8 : Text → Bool) (lossy : Text → Text) (max_line_bytes max_total_bytes : ℕ) where
  abbrev pub cut_and_split : Text → List TruncatedAt → Result TailError LocalLogOutput
  cut_and_split raw flags =
      let split = split_and_cap_lines_with_truncation lossy raw max_line_bytes in
      if is_utf8 raw
      then ok (record {
        lines = split.0;
        truncated_at = (if split.1 then flags ++ line_bytes ∷ [] else flags);
        bytes = length raw;
      })
      else err decode

  unfoldable pub tail_inner : Text → ℕ → Result TailError LocalLogOutput
  unfolding read_tail_bytes split_and_cap_lines_with_truncation
  tail_inner file lines = elim (read_tail_bytes max_total_bytes file (min lines hard_cap_lines)) [
    | none ↦ err out_of_fuel
    | some raw ↦
        if ltb max_total_bytes (length raw)
        then cut_and_split (take max_total_bytes raw) (bytes ∷ [])
        else cut_and_split raw []
  ]
