-- ===== src/Logs/Keyword/Finds.antt =====
-- The keyword search of src/mcp/tools/log_grep.rs against a search line by line.
use gaze_lens.Prelude.{
  ℕ, zero, suc, ◌+◌, ◌≡◌, refl, ap, Bool, true, false, not, ◌&&◌, ltb, if◌then◌else◌, Text, List,
  [], ◌∷◌, Option, length, all, is_empty, ok, err, Bool-cases, inl, inr, arith,
}
use gaze_lens.Logs.Lines.{take, filter, length-take}
use gaze_lens.Logs.Output.{rows, push_truncation, grep_status}
use gaze_lens.Logs.Terms.{Unicode, keyword_query_terms}
use gaze_lens.Logs.Pairs.{indexed_line_terms}
use gaze_lens.Logs.Distinct.{line_terms-sorted}
use gaze_lens.Logs.Keyword.{build, matching_lines}
use gaze_lens.Logs.Keyword.Matches.{has_term, positions, index_matches}
use gaze_lens.Logs.Keyword.Search.{
  KeywordWindow, KeywordRequest, KeywordAnswer, line_at, lines_at, passes_level, filter_level,
  compile_level, answer_of, accept_request, index_window, invalid_args,
  filter_keyword_indexed_window, search,
}

-- The lines from n on are these.
abbrev Holds : List Text → ℕ → List Text → Type 0
Holds lines n ls = (i m : ℕ) → m ≡ i + n → line_at lines m ≡ line_at ls i

Holds-tail :
    (lines : List Text) (n : ℕ) (l : Text) (ls : List Text)
    → Holds lines n (l ∷ ls)
    → Holds lines (suc n) ls
Holds-tail lines n l ls h i m e = h (suc i) m (omega (arith, e))

Holds-all : (lines : List Text) → Holds lines 0 lines
Holds-all lines i m e = let same : m ≡ i = omega (arith, e) in rw same refl

level-positions :
    (lines : List Text) (lv : Option (Text → Bool)) (p : Text → Bool) (n : ℕ) (ls : List Text)
    → Holds lines n ls
    → filter_level lv lines (positions p n ls) ≡ ok (positions (λ l. p l && passes_level lv l) n ls)
unfolding positions filter_level
level-positions lines lv p n [] h = refl
level-positions lines lv p n (l ∷ ls) h =
    let later = level-positions lines lv p (suc n) ls (Holds-tail lines n l ls h) in
    elim (Bool-cases (p l)) [
      | inl passes ↦ rw (passes, filter_level) (rw (h 0 n (omega arith), later, filter_level) refl)
      | inr fails ↦ rw fails later
    ]

first-position :
    (lines : List Text) (p : Text → Bool) (k n : ℕ) (l : Text) (ls : List Text)
    → Holds lines n (l ∷ ls)
    → ((j : ℕ) → lines_at lines (take j (positions p (suc n) ls)) ≡ ok (take j (filter p ls)))
    → lines_at lines (take k (n ∷ positions p (suc n) ls)) ≡ ok (take k (l ∷ filter p ls))
first-position lines p zero n l ls h later = refl
first-position lines p (suc k) n l ls h later = rw (h 0 n (omega arith), later k) refl

lines-positions :
    (lines : List Text) (p : Text → Bool) (k n : ℕ) (ls : List Text)
    → Holds lines n ls
    → lines_at lines (take k (positions p n ls)) ≡ ok (take k (filter p ls))
unfolding positions filter
lines-positions lines p k n [] h = refl
lines-positions lines p k n (l ∷ ls) h = elim (Bool-cases (p l)) [
  | inl passes ↦ rw passes (
      first-position lines p k n l ls h
        (λ j. lines-positions lines p j (suc n) ls (Holds-tail lines n l ls h)))
  | inr fails ↦ rw fails (lines-positions lines p k (suc n) ls (Holds-tail lines n l ls h))
]

length-positions :
    (p : Text → Bool) (n : ℕ) (ls : List Text) → length (positions p n ls) ≡ length (filter p ls)
unfolding positions filter
length-positions p n [] = refl
length-positions p n (l ∷ ls) = elim (Bool-cases (p l)) [
  | inl passes ↦ rw passes (ap suc (length-positions p (suc n) ls))
  | inr fails ↦ rw fails (length-positions p (suc n) ls)
]

-- What is answered when these lines match.
unfoldable pub answer_with : KeywordWindow → ℕ → List Text → KeywordAnswer
unfolding push_truncation grep_status
answer_with window limit found =
    let truncated_at =
      if ltb limit (length found)
      then push_truncation rows window.truncated_at
      else window.truncated_at in
    record {
      lines = take limit found;
      matched_lines = length found;
      returned_lines = length (take limit found);
      status = grep_status (length found) truncated_at;
      truncated_at = truncated_at;
    }

answer-positions :
    (window : KeywordWindow) (limit : ℕ) (p : Text → Bool)
    → answer_of window limit (positions p 0 window.lines)
      ≡ ok (answer_with window limit (filter p window.lines))
unfolding answer_of answer_with
answer-positions window limit p =
    rw
      (
        length-take limit (positions p 0 window.lines),
        length-positions p 0 window.lines,
        lines-positions window.lines p limit 0 window.lines (Holds-all window.lines),
      )
      refl

by_not : {A : Type 0} (b : Bool) → not b ≡ true → (x y : A) → (if b then x else y) ≡ y
by_not true h x y = absurd (ground arith)
by_not false h x y = refl

module _ (u : Unicode) (level_regex : Text → Option (Text → Bool)) where
  -- Whether a line has each term of the request, and its level.
  abbrev pub is_found : KeywordRequest → Option (Text → Bool) → Text → Bool
  is_found request level_re line =
      all (λ t. has_term t (indexed_line_terms u line))
        (keyword_query_terms u request.match_pattern)
      && passes_level level_re line

  indices_found :
      (window : KeywordWindow) (lv : Option (Text → Bool)) (terms : List Text)
      → not (is_empty terms) ≡ true
      → filter_level lv window.lines
          (matching_lines (build (indexed_line_terms u) window.lines) terms)
        ≡ ok (
            positions
              (λ l. all (λ t. has_term t (indexed_line_terms u l)) terms && passes_level lv l)
              0
              window.lines)
  indices_found window lv [] h = absurd (ground arith)
  indices_found window lv (t ∷ ts) h =
      rw (index_matches (indexed_line_terms u) (line_terms-sorted u) window.lines t ts) (
        level-positions window.lines lv
          (λ l. all (λ x. has_term x (indexed_line_terms u l)) (t ∷ ts)) 0 window.lines
          (Holds-all window.lines))

  accepted :
      (request : KeywordRequest)
      → not (is_empty (keyword_query_terms u request.match_pattern)) ≡ true
      → accept_request u request ≡ ok request
  unfolding accept_request
  accepted request h =
      by_not (is_empty (keyword_query_terms u request.match_pattern)) h (err invalid_args)
        (ok request)

  window_found :
      (window : KeywordWindow) (request : KeywordRequest) (level_re : Option (Text → Bool))
      → not (is_empty (keyword_query_terms u request.match_pattern)) ≡ true
      → compile_level level_regex request.level ≡ ok level_re
      → filter_keyword_indexed_window u level_regex (index_window u window) request
        ≡ ok (answer_with window request.limit (filter (is_found request level_re) window.lines))
  unfolding filter_keyword_indexed_window index_window
  window_found window request level_re has_terms compiled =
      rw
        (
          compiled,
          indices_found window level_re (keyword_query_terms u request.match_pattern) has_terms,
        )
        (answer-positions window request.limit (is_found request level_re))

  -- When the pattern has a term and the level, if one is asked for, compiles: the search answers,
  -- without an index out of range, the lines that have every term of the pattern and pass the
  -- level, in their order and cut at the limit, with the count of all that match; rows is flagged
  -- when there are more than the limit, and the status follows from the count and the flags.
  pub search_finds :
      (window : KeywordWindow) (request : KeywordRequest) (level_re : Option (Text → Bool))
      → not (is_empty (keyword_query_terms u request.match_pattern)) ≡ true
      → compile_level level_regex request.level ≡ ok level_re
      → search u level_regex window request
        ≡ ok (answer_with window request.limit (filter (is_found request level_re) window.lines))
  unfolding search
  search_finds window request level_re has_terms compiled =
      rw (accepted request has_terms) (window_found window request level_re has_terms compiled)
