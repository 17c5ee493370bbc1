-- ===== src/Logs/Keyword.antt =====
-- The keyword index of a window of lines, src/mcp/tools/log_grep.rs.
pub mod Matches
pub mod Search
pub mod Finds
use gaze_lens.Prelude.{
  ℕ, zero, suc, ◌+◌, Bool, true, false, not, ◌&&◌, ◌||◌, ◌==◌, ℕ_eq, ℕ_discrete, Text-eq,
  Text-discrete, ltb, leb, if◌then◌else◌, Text, codes, List, [], ◌∷◌, ◌++◌, map, Option, none, some,
  length, any, all, is_empty,
}
use gaze_lens.Logs.Terms.{Unicode, keyword_query_terms}
use gaze_lens.Logs.Pairs.{indexed_line_terms}

-- KeywordIndex: the postings of each term, as a function that answers none for a missing key.
abbrev pub Postings : Type 0
Postings = Text → Option (List ℕ)

abbrev pub no_postings : Postings
no_postings term = none

-- `unwrap_or_default`
abbrev pub lines_of : Option (List ℕ) → List ℕ
lines_of none = []
lines_of (some xs) = xs

-- `postings.entry(term).or_default().push(line_index)`
unfoldable pub post : Text → ℕ → Postings → Postings
unfolding Text-discrete
post term line postings key =
    if key == term then some (lines_of (postings term) ++ line ∷ []) else postings key

unfoldable pub post_all : List Text → ℕ → Postings → Postings
unfolding post
post_all [] line postings = postings
post_all (term ∷ rest) line postings = post_all rest line (post term line postings)

module _ (terms_of : Text → List Text) where
  unfoldable pub build_from : ℕ → List Text → Postings → Postings
  unfolding post_all
  build_from line [] postings = postings
  build_from line (l ∷ rest) postings =
      build_from (suc line) rest (post_all (terms_of l) line postings)

  -- KeywordIndex::build
  unfoldable pub build : List Text → Postings
  unfolding build_from
  build lines = build_from 0 lines no_postings

-- The two indices of the source are what is left of the two lists.
unfoldable pub intersect_sorted : List ℕ → List ℕ → List ℕ
unfolding ℕ_discrete
intersect_sorted [] right = []
intersect_sorted (x ∷ left) [] = []
intersect_sorted (x ∷ left) (y ∷ right) = elim (ltb x y) [
  | true ↦ intersect_sorted left (y ∷ right)
  | false ↦ elim (ltb y x) [
    | true ↦ intersect_sorted (x ∷ left) right
    | false ↦ x ∷ intersect_sorted left right
  ]
]

-- The loop over the terms after the first, which stops when nothing is left.
unfoldable pub narrow : Postings → List ℕ → List Text → List ℕ
unfolding intersect_sorted
narrow postings matches [] = matches
narrow postings matches (term ∷ rest) =
    let next = intersect_sorted matches (lines_of (postings term)) in
    let later = narrow postings next rest in if is_empty next then next else later

unfoldable pub matching_lines : Postings → List Text → List ℕ
unfolding narrow
matching_lines postings [] = []
matching_lines postings (first ∷ rest) = narrow postings (lines_of (postings first)) rest
