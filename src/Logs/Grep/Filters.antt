-- ===== src/Logs/Grep/Filters.antt =====
-- What a search of a tail finds, src/source/log/local_log.rs, against the list of all matches.
use gaze_lens.Prelude.{
  ℕ, suc, ◌+◌, ◌-◌, ◌≤◌, ◌≡◌, refl, ap, ap₂, ◌<◌, ◌∙◌, sym, Bool, true, false, ◌&&◌, ltb,
  if◌then◌else◌, Text, List, [], ◌∷◌, ◌++◌, append_assoc, append-nil, Option, length, length-append,
  Bool-cases, inl, inr, arith,
}
use gaze_lens.Logs.Lines.{take, filter, length-take}
use gaze_lens.Logs.Output.{rows, push_truncation}
use gaze_lens.Logs.Tail.{LocalLogOutput}
use gaze_lens.Logs.Grep.{
  GrepOutput, GrepRequest, LocalLogSource, grep_lines, grep_metadata, filter_grep_output,
  level_passes,
}

take_none {ℓ} : {A : Type ℓ} (xs : List A) → take 0 xs ≡ []
take_none [] = refl
take_none (x ∷ xs) = refl

below : (a b : ℕ) → ltb a b ≡ true → a < b
below a b h = ground arith

reached : (a b : ℕ) → ltb a b ≡ false → b ≤ a
reached a b h = ground arith

room_for :
    (limit : ℕ) (l : Text) (kept found : List Text)
    → length kept < limit
    → (kept ++ l ∷ []) ++ take (limit - length (kept ++ l ∷ [])) found
      ≡ kept ++ take (limit - length kept) (l ∷ found)
room_for limit l kept found h =
    let one : limit - length kept ≡ suc (limit - length (kept ++ l ∷ [])) =
      omega (arith, length-append kept (l ∷ []), h) in
    append_assoc kept (l ∷ []) (take (limit - length (kept ++ l ∷ [])) found)
    ∙ ap (λ n. kept ++ take n (l ∷ found)) (sym one)

no_room :
    (limit : ℕ) (l : Text) (kept found : List Text)
    → limit ≤ length kept
    → kept ++ take (limit - length kept) found ≡ kept ++ take (limit - length kept) (l ∷ found)
no_room limit l kept found h =
    let nothing : limit - length kept ≡ 0 = omega (arith, h) in
    ap (λ n. kept ++ take n found) nothing
    ∙ ap (λ xs. kept ++ xs) (take_none found)
    ∙ ap (λ n. kept ++ take n (l ∷ found)) (sym nothing)

grep_lines-filter :
    (p : Text → Bool) (limit : ℕ) (ls : List Text) (m : ℕ) (kept : List Text)
    → length kept ≤ limit
    → grep_lines p limit ls m kept
      ≡ (m + length (filter p ls), kept ++ take (limit - length kept) (filter p ls))
unfolding grep_lines filter
grep_lines-filter p limit [] m kept h = ap₂ (λ a b. (a, b)) (omega arith) (sym (append-nil kept))
grep_lines-filter p limit (l ∷ ls) m kept h = elim (Bool-cases (p l)) [
  | inr fails ↦ rw fails (grep_lines-filter p limit ls m kept h)
  | inl passes ↦ elim (Bool-cases (ltb (length kept) limit)) [
    | inl room ↦
        rw (passes, room)
          (grep_lines-filter p limit ls (suc m) (kept ++ l ∷ [])
              (omega (arith, length-append kept (l ∷ []), below (length kept) limit room))
            ∙ ap₂ (λ a b. (a, b)) (omega arith)
                (room_for limit l kept (filter p ls) (below (length kept) limit room)))
    | inr full ↦
        rw (passes, full)
          (grep_lines-filter p limit ls (suc m) kept h
            ∙ ap₂ (λ a b. (a, b)) (omega arith)
                (no_room limit l kept (filter p ls) (reached (length kept) limit full)))
  ]
]

-- What is answered with this count of matches and these lines.
abbrev pub counted_output :
    LocalLogSource → GrepRequest → LocalLogOutput → ℕ × List Text → GrepOutput
counted_output source request output found =
    let truncated_at =
      if ltb (length found.1) found.0
      then push_truncation rows output.truncated_at
      else output.truncated_at in
    record {
      lines = found.1;
      truncated_at = truncated_at;
      bytes = output.bytes;
      metadata =
          grep_metadata source request (length output.lines) found.0 (length found.1) output.bytes
            truncated_at;
    }

-- What is answered when these lines match.
abbrev pub matching_output : LocalLogSource → GrepRequest → LocalLogOutput → List Text → GrepOutput
matching_output source request output found =
    let truncated_at =
      if ltb request.limit (length found)
      then push_truncation rows output.truncated_at
      else output.truncated_at in
    record {
      lines = take request.limit found;
      truncated_at = truncated_at;
      bytes = output.bytes;
      metadata =
          grep_metadata source request (length output.lines) (length found)
            (length (take request.limit found)) output.bytes truncated_at;
    }

counted-matching :
    (source : LocalLogSource) (request : GrepRequest) (output : LocalLogOutput) (found : List Text)
    → counted_output source request output (length found, take request.limit found)
      ≡ matching_output source request output found
counted-matching source request output found = rw (length-take request.limit found) refl

-- A search of a tail answers the lines that pass both expressions, in their order and cut at the
-- limit, with the count of all that pass; rows is flagged when there are more than the limit, and
-- the status follows from the count and the flags.
pub grep_filters :
    (source : LocalLogSource) (request : GrepRequest) (output : LocalLogOutput) (re : Text → Bool)
    (level_re : Option (Text → Bool))
    → filter_grep_output source request output re level_re
      ≡ matching_output source request output
          (filter (λ line. re line && level_passes level_re line) output.lines)
unfolding filter_grep_output
grep_filters source request output re level_re =
    let found : List Text = filter (λ line. re line && level_passes level_re line) output.lines in
    ap (counted_output source request output) (
      grep_lines-filter (λ line. re line && level_passes level_re line) request.limit output.lines 0
        [] (omega arith))
    ∙ ap (counted_output source request output)
        (ap₂ (λ a b. (a, b)) (omega arith) (ap (λ n. take n found) (omega arith)))
    ∙ counted-matching source request output found
