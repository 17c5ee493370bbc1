-- ===== src/Logs/Distinct.antt =====
-- The terms of a line are kept in order and without repetition, src/mcp/tools/log_grep.rs.
use gaze_lens.Prelude.{
  Bool, true, false, not, ◌&&◌, ◌||◌, ◌==◌, Text, List, [], ◌∷◌, ◌++◌, Option, none, some, any,
  Pairs, Bool-cases, inl, inr, if◌then◌else◌, ℕ_eq,
}
use gaze_lens.Sets.{Before, set_insert-sorted}
use gaze_lens.Logs.Terms.{
  Unicode, normalize_keyword_term, insert_term, push_segment, gaze_tokens, keyword_segments,
  words_from,
}
use gaze_lens.Logs.Pairs.{
  canonical_key_value_term, key_value_terms, chunk_terms, chunks_terms, indexed_line_terms,
}

module _ (u : Unicode) where
  insert_term-sorted :
      (t : Option Text) (terms : List Text)
      → Pairs Before terms
      → Pairs Before (insert_term u t terms)
  insert_term-sorted none terms h = h
  insert_term-sorted (some t) terms h = set_insert-sorted t terms h

  insert_if-sorted :
      (b : Bool) (t : Option Text) (terms : List Text)
      → Pairs Before terms
      → Pairs Before (if b then insert_term u t terms else terms)
  insert_if-sorted true t terms h = insert_term-sorted t terms h
  insert_if-sorted false t terms h = h

  gaze_tokens-sorted :
      (token : Option Text) (cs : Text) (terms : List Text)
      → Pairs Before terms
      → Pairs Before (gaze_tokens u token cs terms)
  unfolding gaze_tokens
  gaze_tokens-sorted token [] terms h = h
  gaze_tokens-sorted none (c ∷ cs) terms h =
      gaze_tokens-sorted (if c == b'<' then some (c ∷ []) else none) cs terms h
  gaze_tokens-sorted (some token) (c ∷ cs) terms h =
      let whole = token ++ c ∷ [] in
      gaze_tokens-sorted (if c == b'>' then none else some whole) cs
        (if c == b'>' && not (any u.is_whitespace whole)
          then insert_term u (normalize_keyword_term u whole) terms
          else terms)
        (insert_if-sorted (c == b'>' && not (any u.is_whitespace whole))
          (normalize_keyword_term u whole) terms h)

  segments-sorted :
      (in_token : Bool) (segment cs : Text) (terms : List Text)
      → Pairs Before terms
      → Pairs Before (keyword_segments u in_token segment cs terms)
  unfolding keyword_segments
  segments-sorted in_token segment [] terms h =
      insert_term-sorted (normalize_keyword_term u segment) terms h
  segments-sorted true segment (c ∷ cs) terms h =
      let pushed = insert_term-sorted (normalize_keyword_term u segment) terms h in
      elim (Bool-cases (c == b'<')) [
        | inl opens ↦
            rw (opens, keyword_segments)
              (segments-sorted true [] cs (push_segment u segment terms) pushed)
        | inr other ↦
            rw (other, keyword_segments) (segments-sorted (not (c == b'>')) segment cs terms h)
      ]
  segments-sorted false segment (c ∷ cs) terms h =
      let pushed = insert_term-sorted (normalize_keyword_term u segment) terms h in
      elim (Bool-cases (c == b'<')) [
        | inl opens ↦
            rw (opens, keyword_segments)
              (segments-sorted true [] cs (push_segment u segment terms) pushed)
        | inr other ↦ elim (Bool-cases (u.is_alphanumeric c || c == b'_')) [
          | inl part ↦
              rw (other, part, keyword_segments)
                (segments-sorted false (segment ++ c ∷ []) cs terms h)
          | inr ends ↦
              rw (other, ends, keyword_segments)
                (segments-sorted false [] cs (push_segment u segment terms) pushed)
        ]
      ]

  key_values-sorted :
      (in_token : Bool) (before cs : Text) (terms : List Text)
      → Pairs Before terms
      → Pairs Before (key_value_terms u in_token before cs terms)
  unfolding key_value_terms
  key_values-sorted in_token before [] terms h = h
  key_values-sorted in_token before (c ∷ cs) terms h =
      let tests = (c == b':' || c == b'=') && not in_token in
      key_values-sorted (if c == b'<' then true else if c == b'>' then false else in_token)
        (before ++ c ∷ []) cs
        (if tests then insert_term u (canonical_key_value_term u before cs) terms else terms)
        (insert_if-sorted tests (canonical_key_value_term u before cs) terms h)

  chunks-sorted :
      (chunks terms : List Text) → Pairs Before terms → Pairs Before (chunks_terms u chunks terms)
  unfolding chunks_terms chunk_terms
  chunks-sorted [] terms h = h
  chunks-sorted (chunk ∷ rest) terms h = chunks-sorted rest (chunk_terms u chunk terms) (
      segments-sorted false [] chunk
        (gaze_tokens u none chunk (insert_term u (normalize_keyword_term u chunk) terms))
        (gaze_tokens-sorted none chunk (insert_term u (normalize_keyword_term u chunk) terms)
          (insert_term-sorted (normalize_keyword_term u chunk) terms h)))

  pub line_terms-sorted : (line : Text) → Pairs Before (indexed_line_terms u line)
  unfolding indexed_line_terms
  line_terms-sorted line =
      chunks-sorted (words_from u.is_whitespace [] line) (key_value_terms u false [] line [])
        (key_values-sorted false [] line [] tt)
