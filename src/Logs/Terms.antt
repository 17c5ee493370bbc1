-- ===== src/Logs/Terms.antt =====
-- The terms of a line and of a query, src/mcp/tools/log_grep.rs. A text is here the list of its
-- characters, and the tables of Unicode are given.
use gaze_lens.Prelude.{
  ℕ, Bool, true, false, not, ◌&&◌, ◌||◌, ◌==◌, ℕ_eq, ℕ_discrete, leb, if◌then◌else◌, Text, List, [],
  ◌∷◌, ◌++◌, Option, none, some, length, any, is_empty, is_lower, is_upper,
}
use gaze_lens.Sets.{set_insert}

pub record Unicode : Type 0 where
  pub is_whitespace : ℕ → Bool
  pub is_alphanumeric : ℕ → Bool
  pub to_lowercase : Text → Text

abbrev pub is_punctuation : ℕ → Bool
is_punctuation c =
    (leb 33 c && leb c 47)
    || (leb 58 c && leb c 64)
    || (leb 91 c && leb c 96)
    || (leb 123 c && leb c 126)

abbrev pub is_alphabetic : ℕ → Bool
is_alphabetic c = is_lower c || is_upper c

-- `trim_start_matches`
unfoldable pub trim_start : (ℕ → Bool) → Text → Text
trim_start p [] = []
trim_start p (c ∷ rest) = let later = trim_start p rest in if p c then later else c ∷ rest

-- `trim_end_matches`
unfoldable pub trim_end : (ℕ → Bool) → Text → Text
trim_end p [] = []
trim_end p (c ∷ rest) =
    let later = trim_end p rest in if is_empty later && p c then [] else c ∷ later

-- The longest suffix of characters that pass.
unfoldable pub suffix_of : (ℕ → Bool) → Text → Text
suffix_of p [] = []
suffix_of p (c ∷ rest) =
    let later = suffix_of p rest in if p c && length later == length rest then c ∷ later else later

-- What stands before the first character that passes.
unfoldable pub before_first : (ℕ → Bool) → Text → Text
before_first p [] = []
before_first p (c ∷ rest) = let later = before_first p rest in if p c then [] else c ∷ later

-- `split_whitespace`, from a word that is begun.
unfoldable pub words_from : (ℕ → Bool) → Text → Text → List Text
words_from ws word [] = if is_empty word then [] else word ∷ []
words_from ws word (c ∷ rest) = elim (ws c) [
  | true ↦ if is_empty word then words_from ws [] rest else word ∷ words_from ws [] rest
  | false ↦ words_from ws (word ++ c ∷ []) rest
]

-- Punctuation that a term keeps: < > _ - = : @ and the dot.
unfoldable pub is_kept : ℕ → Bool
unfolding ℕ_discrete
is_kept c = c == 60 || c == 62 || c == 95 || c == 45 || c == 61 || c == 58 || c == 64 || c == 46

abbrev pub is_trimmed : ℕ → Bool
is_trimmed c = is_punctuation c && not (is_kept c)

module _ (u : Unicode) where
  unfoldable pub normalize_keyword_term : Text → Option Text
  unfolding trim_start trim_end is_kept
  normalize_keyword_term term =
      let trimmed = trim_end is_trimmed (trim_start is_trimmed term) in
      if is_empty trimmed then none else some (u.to_lowercase trimmed)

  -- `terms.insert` of a term, if there is one.
  abbrev pub insert_term : Option Text → List Text → List Text
  insert_term none terms = terms
  insert_term (some t) terms = set_insert t terms

  -- `filter_map(normalize_keyword_term)`
  unfoldable pub normalize_all : List Text → List Text
  unfolding normalize_keyword_term
  normalize_all [] = []
  normalize_all (w ∷ rest) =
      let later = normalize_all rest in
      elim (normalize_keyword_term w) [ none ↦ later | some t ↦ t ∷ later ]

  unfoldable pub keyword_query_terms : Text → List Text
  unfolding words_from normalize_all
  keyword_query_terms pattern = normalize_all (words_from u.is_whitespace [] pattern)

  -- The token from `<` to the next `>`; `token` is what of it has been passed, with `<` first.
  unfoldable pub gaze_tokens : Option Text → Text → List Text → List Text
  unfolding normalize_keyword_term set_insert ℕ_discrete
  gaze_tokens token [] terms = terms
  gaze_tokens none (c ∷ rest) terms =
      gaze_tokens (if c == b'<' then some (c ∷ []) else none) rest terms
  gaze_tokens (some token) (c ∷ rest) terms =
      let whole = token ++ c ∷ [] in
      gaze_tokens (if c == b'>' then none else some whole) rest (
        if c == b'>' && not (any u.is_whitespace whole)
        then insert_term (normalize_keyword_term whole) terms
        else terms)

  abbrev pub collect_gaze_tokens : Text → List Text → List Text
  collect_gaze_tokens chunk terms = gaze_tokens none chunk terms

  abbrev pub push_segment : Text → List Text → List Text
  push_segment segment terms = insert_term (normalize_keyword_term segment) terms

  unfoldable pub keyword_segments : Bool → Text → Text → List Text → List Text
  unfolding normalize_keyword_term set_insert ℕ_discrete
  keyword_segments in_token segment [] terms = push_segment segment terms
  keyword_segments in_token segment (c ∷ rest) terms = elim (c == b'<') [
    | true ↦ keyword_segments true [] rest (push_segment segment terms)
    | false ↦ elim in_token [
      | true ↦ keyword_segments (not (c == b'>')) segment rest terms
      | false ↦ elim (u.is_alphanumeric c || c == b'_') [
        | true ↦ keyword_segments false (segment ++ c ∷ []) rest terms
        | false ↦ keyword_segments false [] rest (push_segment segment terms)
      ]
    ]
  ]

  abbrev pub collect_keyword_segments : Text → List Text → List Text
  collect_keyword_segments chunk terms = keyword_segments false [] chunk terms
