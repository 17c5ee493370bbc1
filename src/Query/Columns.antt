-- ===== src/Query/Columns.antt =====
-- Columns, identifiers and numbers in the text of a query, src/source/db/query.rs.
use gaze_lens.Prelude.{
  ℕ, zero, suc, ◌+◌, ◌/◌, ◌%◌, Bool, true, false, not, ◌&&◌, ◌||◌, ◌==◌, ℕ_eq, ℕ_discrete, Text-eq,
  Text-discrete, ltb, leb, if◌then◌else◌, Text, codes, List, [], ◌∷◌, ◌++◌, map, any, find, Result,
  ok, err, ok_or, ◌>>=◌,
}
use gaze_lens.Query.Types.{
  ColumnInfo, TableSchema, WhereOp, Dialect, QueryError, like, postgres, unknown_column,
  disallowed_column, unsafe_column,
}

abbrev pub lower : ℕ → ℕ
lower c = if leb 65 c && leb c 90 then c + 32 else c

abbrev pub keywords : List Text
keywords =
    codes "alter"
    ∷ codes "delete"
    ∷ codes "drop"
    ∷ codes "insert"
    ∷ codes "order"
    ∷ codes "select"
    ∷ codes "truncate"
    ∷ codes "union"
    ∷ codes "update"
    ∷ codes "where"
    ∷ []

unfoldable pub has_sql_keyword : Text → Bool
unfolding Text-discrete
has_sql_keyword column = any (λ k. k == map lower column) keywords

-- `contains("--")`
unfoldable pub has_dashes : Text → Bool
unfolding ℕ_discrete
has_dashes [] = false
has_dashes (c ∷ []) = false
has_dashes (c ∷ d ∷ rest) = (c == 45 && d == 45) || has_dashes (d ∷ rest)

unfoldable pub validate_column : Text → TableSchema → Result QueryError ColumnInfo
unfolding has_sql_keyword has_dashes Text-discrete ℕ_discrete
validate_column column schema =
    if has_sql_keyword column || any (λ c. c == 59) column || has_dashes column
    then err (unsafe_column column)
    else do
      info ← ok_or (unknown_column column) (find (λ c. c.name == column) schema.columns)
      if not info.allowed then err (disallowed_column column) else ok info

abbrev pub string_types : List Text
string_types =
    codes "char"
    ∷ codes "varchar"
    ∷ codes "text"
    ∷ codes "tinytext"
    ∷ codes "mediumtext"
    ∷ codes "longtext"
    ∷ codes "json"
    ∷ []

unfoldable pub is_string_family : Text → Bool
unfolding Text-discrete
is_string_family data_type = any (λ t. t == map lower data_type) string_types

unfoldable pub operator_matches_type : WhereOp → Text → Bool
unfolding is_string_family
operator_matches_type like data_type = is_string_family data_type
operator_matches_type _ data_type = true

-- The quote of identifiers: U+0060, or U+0022 in Postgres.
abbrev pub quote : Dialect → ℕ
quote postgres = 34
quote _ = 96

-- `replace(q, qq)`
unfoldable pub double : ℕ → Text → Text
unfolding ℕ_discrete
double q [] = []
double q (c ∷ rest) = let later = double q rest in if c == q then q ∷ q ∷ later else c ∷ later

unfoldable pub escape_ident : Text → Dialect → Text
unfolding double
escape_ident ident dialect = quote dialect ∷ (double (quote dialect) ident ++ quote dialect ∷ [])

-- A number in decimal; the number of its digits is below fuel.
unfoldable pub digits_on : ℕ → ℕ → Text
digits_on zero n = []
digits_on (suc fuel) n =
    let earlier = digits_on fuel (n / 10) in
    if ltb n 10 then (48 + n) ∷ [] else earlier ++ (48 + n % 10) ∷ []
