-- ===== src/Logs/Tests.antt =====
-- The log search at concrete inputs.
use gaze_lens.Prelude.{
  ◌++◌, any, ◌&&◌, arith, ℕ, ◌≡◌, refl, ◌⊎◌, Bool, true, false, ◌==◌, ℕ_eq, Text-eq, ℕ_discrete,
  Text, codes, List, [], ◌∷◌, Option, none, some, Result, ok, err, All, is_upper, is_lower,
  is_digit, ◌||◌, ◌+◌, map, if◌then◌else◌,
}
use gaze_lens.Logs.Lines.{filter}
use gaze_lens.Logs.Output.{rows, truncated, line_bytes}
use gaze_lens.Logs.Tail.{LocalLogOutput, target_newlines, tail_start_offset, decode, tail_inner}
use gaze_lens.Logs.Tail.Offset.{IsTailStart, IsTailStart-tail_start_offset}
use gaze_lens.Logs.Tail.Output.{Within, Within-tail_inner}
use gaze_lens.Logs.Grep.{LocalLogSource, GrepRequest, level_passes, filter_grep_output}
use gaze_lens.Logs.Grep.Filters.{matching_output, grep_filters}
use gaze_lens.Logs.Terms.{Unicode, keyword_query_terms}
use gaze_lens.Logs.Pairs.{indexed_line_terms}
use gaze_lens.Logs.Cache.Fresh.{Request, IsRecent, serve, IsRecent-serve}
use gaze_lens.Logs.Keyword.Search.{KeywordWindow, KeywordRequest, search}
use gaze_lens.Logs.Keyword.Finds.{answer_with, is_found, search_finds}

abbrev ascii : Unicode
ascii = record {
  is_whitespace = λ c. c == b' ';
  is_alphanumeric = λ c. is_upper c || is_lower c || is_digit c;
  to_lowercase = λ t. map (λ c. if is_upper c then c + 32 else c) t;
}

abbrev no_level : Text → Option (Text → Bool)
no_level level = none

abbrev window : KeywordWindow
window = record {
  lines =
      codes "login user=bob" ∷ codes "<ab:Email_1> logout" ∷ codes "Login \"user\": \"bob\"" ∷ [];
  truncated_at = [];
}

abbrev request : KeywordRequest
request = record {
  pattern = codes "user:bob Login";
  match_pattern = codes "user:bob Login";
  level = none;
  limit = 1;
}

found_lines :
    search ascii no_level window request
    ≡ ok (record {
      lines = codes "login user=bob" ∷ [];
      matched_lines = 2;
      returned_lines = 1;
      status = truncated;
      truncated_at = rows ∷ [];
    })
unfolding search
found_lines = refl

token_terms :
    indexed_line_terms ascii (codes "<ab:Email_1> out") ≡ codes "<ab:email_1>" ∷ codes "out" ∷ []
unfolding indexed_line_terms
token_terms = refl

search_finds_example :
    search ascii no_level window request
    ≡ ok (answer_with window 1 (filter (is_found ascii no_level request none) window.lines))
unfolding keyword_query_terms
search_finds_example = search_finds ascii no_level window request none refl refl

abbrev at_path : ℕ → Bool → ℕ → Result Text Text → Request Text ℕ Text
at_path key refresh now outcome = record {
  key = key;
  refresh = refresh;
  fetch = record { now = now; later = now + 1; outcome = outcome };
}

abbrev requests : List (Request Text ℕ Text)
requests =
    at_path 1 false 10 (ok (codes "a"))
    ∷ at_path 1 false 12 (ok (codes "b"))
    ∷ at_path 1 true 13 (ok (codes "c"))
    ∷ at_path 2 false 13 (err (codes "gone"))
    ∷ at_path 1 false 40 (ok (codes "d"))
    ∷ []

answers :
    map (λ s. s.lookup.answer) (serve (λ a b. a == b) 3 (λ k. none) [] requests)
    ≡ ok (codes "a") ∷ ok (codes "a") ∷ ok (codes "c") ∷ err (codes "gone") ∷ ok (codes "d") ∷ []
unfolding serve ℕ_discrete
answers = refl

same_number : (a b : ℕ) → (a == b) ≡ true → a ≡ b
unfolding ℕ_discrete
same_number a b h = elim (ℕ_discrete a b) [ yes e ↦ e | no n ↦ absurd (ground arith) ]

IsRecent-serve_example :
    All (IsRecent (λ a b. a == b) 3) (serve (λ a b. a == b) 3 (λ k. none) [] requests)
IsRecent-serve_example = IsRecent-serve (λ a b. a == b) 3 same_number requests

abbrev log : Text
log = codes "a" ++ 10 ∷ codes "bcd" ++ 10 ∷ 10 ∷ codes "e" ++ 10 ∷ []

abbrev all_utf8 : Text → Bool
all_utf8 raw = true

abbrev as_read : Text → Text
as_read line = line

tail_start_two : tail_start_offset log 3 ≡ some 2
unfolding tail_start_offset target_newlines
tail_start_two = refl

tail_cut :
    tail_inner all_utf8 as_read 2 100 log 3
    ≡ ok (record { lines = codes "bc" ∷ codes "e" ∷ []; truncated_at = line_bytes ∷ []; bytes = 7 })
unfolding tail_inner
tail_cut = refl

abbrev tail_output : LocalLogOutput
tail_output = record { lines = codes "bcd" ∷ codes "e" ∷ []; truncated_at = []; bytes = 7 }

IsTailStart-tail_start_offset_example :
    (offset : ℕ) × ((tail_start_offset log 3 ≡ some offset)
      × IsTailStart log (target_newlines log 3) offset)
IsTailStart-tail_start_offset_example = IsTailStart-tail_start_offset log 3 (omega arith)

Within-tail_inner_example :
    (tail_inner all_utf8 as_read 2 100 log 3 ≡ err decode)
    ⊎ ((out : LocalLogOutput) × ((tail_inner all_utf8 as_read 2 100 log 3 ≡ ok out)
          × Within all_utf8 as_read 2 100 out))
Within-tail_inner_example = Within-tail_inner all_utf8 as_read 2 100 log 3

abbrev source : LocalLogSource
source = record { profile_name = codes "app"; path = codes "/log" }

abbrev grep_request : GrepRequest
grep_request = record { pattern = codes "e"; level = none; limit = 1 }

abbrev has_e : Text → Bool
unfolding ℕ_discrete
has_e line = any (λ c. c == b'e') line

grep_filters_example :
    filter_grep_output source grep_request tail_output has_e none
    ≡ matching_output source grep_request tail_output
        (filter (λ line. has_e line && level_passes none line) tail_output.lines)
grep_filters_example = grep_filters source grep_request tail_output has_e none
