-- ===== src/Logs/Keyword/Search.antt =====
-- The answer to a keyword search, src/mcp/tools/log_grep.rs. What serializes the metadata is not
-- modelled: an answer is what is serialized.
use gaze_lens.Prelude.{
  ℕ, zero, suc, Bool, true, ltb, if◌then◌else◌, Text, List, [], ◌∷◌, Option, none, some, length,
  is_empty, Result, ok, err, ◌>>=◌,
}
use gaze_lens.Logs.Lines.{take}
use gaze_lens.Logs.Output.{TruncatedAt, rows, push_truncation, Status, grep_status}
use gaze_lens.Logs.Terms.{Unicode, keyword_query_terms}
use gaze_lens.Logs.Pairs.{indexed_line_terms}
use gaze_lens.Logs.Keyword.{Postings, build, matching_lines}

-- RedactedKeywordWindow, its metadata left out.
pub record KeywordWindow : Type 0 where
  pub lines : List Text
  pub truncated_at : List TruncatedAt

pub record IndexedKeywordWindow : Type 0 where
  pub window : KeywordWindow
  pub index : Postings

pub record KeywordRequest : Type 0 where
  pub pattern : Text
  pub match_pattern : Text
  pub level : Option Text
  pub limit : ℕ

pub record KeywordAnswer : Type 0 where
  pub lines : List Text
  pub matched_lines : ℕ
  pub returned_lines : ℕ
  pub status : Status
  pub truncated_at : List TruncatedAt

-- `window.lines[index]` panics out of range.
pub data SearchError : Type 0 where
  invalid_args : SearchError
  internal : SearchError
  out_of_range : SearchError

abbrev pub line_at : List Text → ℕ → Result SearchError Text
line_at [] n = err out_of_range
line_at (l ∷ rest) zero = ok l
line_at (l ∷ rest) (suc n) = line_at rest n

abbrev pub lines_at : List Text → List ℕ → Result SearchError (List Text)
lines_at lines [] = ok []
lines_at lines (i ∷ rest) = do l ← line_at lines i; ls ← lines_at lines rest; ok (l ∷ ls)

-- `level_re.as_ref().is_none_or(..)`
abbrev pub passes_level : Option (Text → Bool) → Text → Bool
passes_level none line = true
passes_level (some level_re) line = level_re line

unfoldable pub filter_level :
    Option (Text → Bool) → List Text → List ℕ → Result SearchError (List ℕ)
filter_level level_re lines [] = ok []
filter_level level_re lines (i ∷ rest) = do
  line ← line_at lines i
  later ← filter_level level_re lines rest
  ok (if passes_level level_re line then i ∷ later else later)

-- The regular expression of a level, if it has one and it is accepted.
abbrev pub compile_level :
    (Text → Option (Text → Bool)) → Option Text → Result SearchError (Option (Text → Bool))
compile_level level_regex none = ok none
compile_level level_regex (some level) = elim (level_regex level) [
  | none ↦ err internal
  | some level_re ↦ ok (some level_re)
]

-- What is made of the positions that match.
unfoldable pub answer_of : KeywordWindow → ℕ → List ℕ → Result SearchError KeywordAnswer
unfolding push_truncation grep_status
answer_of window limit matched_indices =
    let matched_lines = length matched_indices in
    let returned_indices = take limit matched_indices in
    let truncated_at =
      if ltb (length returned_indices) matched_lines
      then push_truncation rows window.truncated_at
      else window.truncated_at in
    do
      lines ← lines_at window.lines returned_indices
      ok (record {
        lines = lines;
        matched_lines = matched_lines;
        returned_lines = length lines;
        status = grep_status matched_lines truncated_at;
        truncated_at = truncated_at;
      })

module _ (u : Unicode) where
  -- IndexedKeywordWindow::new
  unfoldable pub index_window : KeywordWindow → IndexedKeywordWindow
  unfolding build indexed_line_terms
  index_window window = record {
    window = window;
    index = build (indexed_line_terms u) window.lines;
  }

  -- The check of keyword_request_from_args.
  unfoldable pub accept_request : KeywordRequest → Result SearchError KeywordRequest
  unfolding keyword_query_terms
  accept_request request =
      if is_empty (keyword_query_terms u request.match_pattern)
      then err invalid_args
      else ok request

module _ (u : Unicode) (level_regex : Text → Option (Text → Bool)) where
  unfoldable pub filter_keyword_indexed_window :
      IndexedKeywordWindow → KeywordRequest → Result SearchError KeywordAnswer
  unfolding keyword_query_terms matching_lines filter_level answer_of
  filter_keyword_indexed_window indexed request = do
    level_re ← compile_level level_regex request.level
    matched_indices ←
        filter_level level_re indexed.window.lines
          (matching_lines indexed.index (keyword_query_terms u request.match_pattern))
    answer_of indexed.window request.limit matched_indices

  unfoldable pub search : KeywordWindow → KeywordRequest → Result SearchError KeywordAnswer
  unfolding index_window accept_request filter_keyword_indexed_window
  search window request = do
    accepted ← accept_request u request
    filter_keyword_indexed_window (index_window u window) accepted
