-- ===== src/Logs/Grep.antt =====
-- The search of a tail by regular expressions, src/source/log/local_log.rs. What the expressions
-- match is given.
pub mod Filters
use gaze_lens.Prelude.{
  ℕ, zero, suc, Bool, true, false, ◌&&◌, ◌==◌, ℕ_eq, ℕ_discrete, Text-eq, Text-discrete, ltb,
  if◌then◌else◌, Text, List, [], ◌∷◌, ◌++◌, Option, none, some, length, Result, ok, err,
}
use gaze_lens.Logs.Output.{TruncatedAt, rows, push_truncation, Status, grep_status, non_empty_level}
use gaze_lens.Logs.Cache.{Entries, Fetch, Lookup, get_or_fetch, get_or_fetch_refresh}
use gaze_lens.Logs.Tail.{LocalLogOutput}

abbrev pub bounded_tail_for_grep : ℕ
bounded_tail_for_grep = 10000

pub record LocalLogMetadata : Type 0 where
  pub status : Status
  pub profile : Text
  pub path : Text
  pub pattern : Text
  pub level : Option Text
  pub requested_limit : ℕ
  pub tail_window_lines : ℕ
  pub searched_lines : ℕ
  pub matched_lines : ℕ
  pub returned_lines : ℕ
  pub searched_bytes : ℕ
  pub truncated_at : List TruncatedAt

-- A LocalLogOutput with its metadata.
pub record GrepOutput : Type 0 where
  pub lines : List Text
  pub truncated_at : List TruncatedAt
  pub bytes : ℕ
  pub metadata : LocalLogMetadata

pub record GrepRequest : Type 0 where
  pub pattern : Text
  pub level : Option Text
  pub limit : ℕ

pub record LocalLogSource : Type 0 where
  pub profile_name : Text
  pub path : Text

abbrev pub level_passes : Option (Text → Bool) → Text → Bool
level_passes none line = true
level_passes (some level_re) line = level_re line

-- The loop over the lines, with the count and the lines that were kept.
unfoldable pub grep_lines : (Text → Bool) → ℕ → List Text → ℕ → List Text → ℕ × List Text
grep_lines is_match limit [] matched_lines lines = (matched_lines, lines)
grep_lines is_match limit (line ∷ rest) matched_lines lines =
    let on = grep_lines is_match limit rest in
    if is_match line
    then on (suc matched_lines) (if ltb (length lines) limit then lines ++ line ∷ [] else lines)
    else on matched_lines lines

module _ (source : LocalLogSource) (request : GrepRequest) where
  abbrev pub grep_metadata : ℕ → ℕ → ℕ → ℕ → List TruncatedAt → LocalLogMetadata
  unfolding grep_status non_empty_level
  grep_metadata searched_lines matched_lines returned_lines searched_bytes truncated_at = record {
    status = grep_status matched_lines truncated_at;
    profile = source.profile_name;
    path = source.path;
    pattern = request.pattern;
    level = non_empty_level request.level;
    requested_limit = request.limit;
    tail_window_lines = bounded_tail_for_grep;
    searched_lines = searched_lines;
    matched_lines = matched_lines;
    returned_lines = returned_lines;
    searched_bytes = searched_bytes;
    truncated_at = truncated_at;
  }

  unfoldable pub filter_grep_output :
      LocalLogOutput → (Text → Bool) → Option (Text → Bool) → GrepOutput
  unfolding grep_lines push_truncation grep_status non_empty_level
  filter_grep_output output re level_re =
      let found =
        grep_lines (λ line. re line && level_passes level_re line) request.limit output.lines 0
          [] in
      let truncated_at =
        if ltb (length found.1) found.0
        then push_truncation rows output.truncated_at
        else output.truncated_at in
      record {
        lines = found.1;
        truncated_at = truncated_at;
        bytes = output.bytes;
        metadata =
            grep_metadata (length output.lines) found.0 (length found.1) output.bytes truncated_at;
      }

  unfoldable pub full_grep_window_output : LocalLogOutput → GrepOutput
  unfolding grep_status non_empty_level
  full_grep_window_output output = record {
    lines = output.lines;
    truncated_at = output.truncated_at;
    bytes = output.bytes;
    metadata =
        grep_metadata (length output.lines) (length output.lines) (length output.lines) output.bytes
          output.truncated_at;
  }

pub record WindowCacheKey : Type 0 where
  pub path : Text
  pub window_lines : ℕ

unfoldable pub same_key : WindowCacheKey → WindowCacheKey → Bool
unfolding Text-discrete ℕ_discrete
same_key a b = a.path == b.path && a.window_lines == b.window_lines

pub data GrepError (E : Type 0) : Type 0 where
  invalid_regex : GrepError E
  invalid_level : GrepError E
  fetch_failed : E → GrepError E

-- What a search answers, and the cache that it leaves.
pub record GrepReply (E : Type 0) : Type 0 where
  pub answer : Result (GrepError E) GrepOutput
  pub left : Entries WindowCacheKey LocalLogOutput

abbrev pub reply :
    {E : Type 0}
    → (LocalLogOutput → GrepOutput)
    → Lookup E WindowCacheKey LocalLogOutput
    → GrepReply E
reply make lookup = record {
  answer = elim lookup.answer [ err e ↦ err (fetch_failed e) | ok output ↦ ok (make output) ];
  left = lookup.left;
}

module _ (source : LocalLogSource) where
  abbrev pub grep_window_cache_key : WindowCacheKey
  grep_window_cache_key = record { path = source.path; window_lines = bounded_tail_for_grep }

-- The level's expression, if it has one, and whether it is accepted.
abbrev pub level_expression :
    (Text → Option (Text → Bool)) → Option Text → Option (Option (Text → Bool))
level_expression level_regex none = some none
level_expression level_regex (some level) = elim (level_regex level) [
  | none ↦ none
  | some re ↦ some (some re)
]

module _ {E : Type 0} (regex level_regex : Text → Option (Text → Bool)) (ttl : ℕ)
    (source : LocalLogSource) where
  unfoldable pub grep_with_tail_fetcher :
      Entries WindowCacheKey LocalLogOutput → GrepRequest → Fetch E LocalLogOutput → GrepReply E
  unfolding non_empty_level get_or_fetch same_key filter_grep_output
  grep_with_tail_fetcher entries request fetch = elim (regex request.pattern) [
    | none ↦ record { answer = err invalid_regex; left = entries }
    | some re ↦ elim (level_expression level_regex (non_empty_level request.level)) [
      | none ↦ record { answer = err invalid_level; left = entries }
      | some level_re ↦
          reply (λ output. filter_grep_output source request output re level_re)
            (get_or_fetch same_key ttl entries (grep_window_cache_key source) fetch)
    ]
  ]

  unfoldable pub grep_window_with_tail_fetcher :
      Entries WindowCacheKey LocalLogOutput
      → GrepRequest
      → Bool
      → Fetch E LocalLogOutput
      → GrepReply E
  unfolding get_or_fetch_refresh same_key full_grep_window_output
  grep_window_with_tail_fetcher entries request refresh fetch =
      reply (full_grep_window_output source request)
        (get_or_fetch_refresh same_key ttl entries (grep_window_cache_key source) refresh fetch)
