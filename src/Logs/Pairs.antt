-- ===== src/Logs/Pairs.antt =====
-- The key and value terms of a line, src/mcp/tools/log_grep.rs.
use gaze_lens.Prelude.{
  ℕ, Bool, true, false, not, ◌&&◌, ◌||◌, ◌==◌, ℕ_eq, ℕ_discrete, leb, if◌then◌else◌, Text, List, [],
  ◌∷◌, ◌++◌, Option, none, some, length, any, all, is_empty, is_digit,
}
use gaze_lens.Sets.{set_insert}
use gaze_lens.Logs.Terms.{
  Unicode, is_alphabetic, trim_start, trim_end, suffix_of, before_first, words_from,
  normalize_keyword_term, insert_term, collect_gaze_tokens, collect_keyword_segments, gaze_tokens,
  keyword_segments,
}

abbrev pub key_value_term_max_value_chars : ℕ
key_value_term_max_value_chars = 64

unfoldable pub is_structured_key_start : ℕ → Bool
unfolding ℕ_discrete
is_structured_key_start c = is_alphabetic c || c == b'_'

unfoldable pub is_structured_key_char : ℕ → Bool
unfolding ℕ_discrete
is_structured_key_char c = is_alphabetic c || is_digit c || c == b'_' || c == b'-' || c == b'.'

unfoldable pub validate_structured_key : Text → Option Text
unfolding is_structured_key_start is_structured_key_char
validate_structured_key [] = none
validate_structured_key (c ∷ rest) =
    if is_structured_key_start c && all is_structured_key_char rest then some (c ∷ rest) else none

-- `strip_suffix('"')`
unfoldable pub strip_quote : Text → Option Text
unfolding ℕ_discrete
strip_quote [] = none
strip_quote (c ∷ []) = if c == 34 then some [] else none
strip_quote (c ∷ d ∷ rest) = elim (strip_quote (d ∷ rest)) [ none ↦ none | some t ↦ some (c ∷ t) ]

-- Up to the quote that is not escaped.
unfoldable pub upto_quote : Bool → Text → Option Text
unfolding ℕ_discrete
upto_quote escaped [] = none
upto_quote escaped (c ∷ rest) =
    let later = upto_quote (c == 92 && not escaped) rest in
    if c == 34 && not escaped then some [] else elim later [ none ↦ none | some t ↦ some (c ∷ t) ]

module _ (u : Unicode) where
  unfoldable pub key_before_separator : Text → Option Text
  unfolding trim_end strip_quote suffix_of validate_structured_key ℕ_discrete
  key_before_separator before =
      let trimmed = trim_end u.is_whitespace before in
      elim (strip_quote trimmed) [
        | some quoted ↦
            if any (λ c. c == 34) quoted
            then validate_structured_key (suffix_of (λ c. not (c == 34)) quoted)
            else none
        | none ↦ validate_structured_key (suffix_of is_structured_key_char trimmed)
      ]

  unfoldable pub is_structured_value_start : ℕ → Bool
  unfolding ℕ_discrete
  is_structured_value_start c =
      u.is_alphanumeric c || c == b'<' || c == b'_' || c == b'-' || c == b'.'

  unfoldable pub is_unquoted_value_terminator : ℕ → Bool
  unfolding ℕ_discrete
  is_unquoted_value_terminator c =
      u.is_whitespace c
      || c == b'&'
      || c == 34
      || c == b','
      || c == b';'
      || c == b')'
      || c == b'}'
      || c == b']'

  unfoldable pub validate_structured_value : Text → Option Text
  validate_structured_value value =
      if not (is_empty value)
        && leb (length value) key_value_term_max_value_chars
        && not (any u.is_whitespace value)
      then some value
      else none

  abbrev pub value_text : Text → Option Text
  value_text [] = none
  value_text (c ∷ rest) =
      if c == 34
      then upto_quote false rest
      else if is_structured_value_start c
      then some (before_first is_unquoted_value_terminator (c ∷ rest))
      else none

  unfoldable pub value_after_separator : Text → Option Text
  unfolding trim_start before_first upto_quote is_structured_value_start
      is_unquoted_value_terminator validate_structured_value ℕ_discrete
  value_after_separator after = elim (value_text (trim_start u.is_whitespace after)) [
    | none ↦ none
    | some value ↦ validate_structured_value value
  ]

  unfoldable pub canonical_key_value_term : Text → Text → Option Text
  unfolding key_before_separator value_after_separator normalize_keyword_term
  canonical_key_value_term before after = elim (key_before_separator before) [
    | none ↦ none
    | some key ↦ elim (value_after_separator after) [
      | none ↦ none
      | some value ↦ normalize_keyword_term u (key ++ (b':' ∷ value))
    ]
  ]

  -- The loop over `char_indices`: what stands before the index, and what is left from it.
  unfoldable pub key_value_terms : Bool → Text → Text → List Text → List Text
  unfolding canonical_key_value_term set_insert ℕ_discrete
  key_value_terms in_token before [] terms = terms
  key_value_terms in_token before (c ∷ rest) terms =
      key_value_terms (if c == b'<' then true else if c == b'>' then false else in_token)
        (before ++ c ∷ []) rest
        (if (c == b':' || c == b'=') && not in_token
          then insert_term u (canonical_key_value_term before rest) terms
          else terms)

  abbrev pub collect_key_value_terms : Text → List Text → List Text
  collect_key_value_terms line terms = key_value_terms false [] line terms

  unfoldable pub chunk_terms : Text → List Text → List Text
  unfolding normalize_keyword_term set_insert gaze_tokens keyword_segments
  chunk_terms chunk terms =
      collect_keyword_segments u chunk
        (collect_gaze_tokens u chunk (insert_term u (normalize_keyword_term u chunk) terms))

  unfoldable pub chunks_terms : List Text → List Text → List Text
  unfolding chunk_terms
  chunks_terms [] terms = terms
  chunks_terms (chunk ∷ rest) terms = chunks_terms rest (chunk_terms chunk terms)

  unfoldable pub indexed_line_terms : Text → List Text
  unfolding key_value_terms chunks_terms words_from
  indexed_line_terms line =
      chunks_terms (words_from u.is_whitespace [] line) (collect_key_value_terms line [])
