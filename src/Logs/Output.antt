-- ===== src/Logs/Output.antt =====
-- What a log search says of its output: TruncatedAt of src/session/mod.rs, and the helpers of
-- src/source/log/local_log.rs.
use gaze_lens.Prelude.{
  ℕ, zero, suc, Bool, true, false, ℕ_eq, if◌then◌else◌, Text, List, [], ◌∷◌, ◌++◌, Option, none,
  some, any, is_empty,
}

pub data TruncatedAt : Type 0 where
  rows : TruncatedAt
  bytes : TruncatedAt
  cell_bytes : TruncatedAt
  line_bytes : TruncatedAt
  timeout : TruncatedAt

abbrev pub is_same : TruncatedAt → TruncatedAt → Bool
is_same rows rows = true
is_same bytes bytes = true
is_same cell_bytes cell_bytes = true
is_same line_bytes line_bytes = true
is_same timeout timeout = true
is_same _ _ = false

-- `truncated_at.contains(&reason)`
abbrev pub contains : TruncatedAt → List TruncatedAt → Bool
contains reason xs = any (is_same reason) xs

unfoldable pub push_truncation : TruncatedAt → List TruncatedAt → List TruncatedAt
push_truncation reason xs = if contains reason xs then xs else xs ++ reason ∷ []

pub data Status : Type 0 where
  no_matches : Status
  no_matches_truncated : Status
  truncated : Status
  matches : Status

unfoldable pub grep_status : ℕ → List TruncatedAt → Status
grep_status zero [] = no_matches
grep_status zero (_ ∷ _) = no_matches_truncated
grep_status (suc n) (_ ∷ _) = truncated
grep_status (suc n) [] = matches

unfoldable pub non_empty_level : Option Text → Option Text
non_empty_level none = none
non_empty_level (some level) = if is_empty level then none else some level
