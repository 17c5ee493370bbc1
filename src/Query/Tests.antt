-- ===== src/Query/Tests.antt =====
-- A query on which the theorems about compilation are applied.
use gaze_lens.Prelude.{◌≡◌, ◌++◌, Text, refl, true, false, codes, [], ◌∷◌, some, ok}
use gaze_lens.Query.{
  TableSchema, in_list, like, asc, scalar, list, string, u64, or_any, CannedQuery, CompiledQuery,
  postgres, string_value, u64_value, compile_to_sql_for, escape_ident, quote,
}
use gaze_lens.Query.Idents.{read_ident, IsOther, read_ident-escape_ident}
use gaze_lens.Query.Holes.{Reads-compile_to_sql_for}
use gaze_lens.Query.Counts.{Reads}
use gaze_lens.Query.Allowed.{IsAllowedQuery, IsAllowedQuery-compile_to_sql_for}

abbrev users : TableSchema
users = record {
  table = codes "users";
  columns =
      record { name = codes "id"; data_type = codes "bigint"; nullable = false; allowed = true }
      ∷ record { name = codes "na\"me$"; data_type = codes "Text"; nullable = true; allowed = true }
      ∷ [];
  limit_cap = some 100;
}

abbrev by_name : CannedQuery
by_name = record {
  profile = codes "dev";
  table = codes "users";
  columns = some (codes "id" ∷ []);
  where_clauses = some (
      record { col = codes "na\"me$"; op = like; val = some (scalar (string (codes "a%"))) }
      ∷ record { col = codes "id"; op = in_list; val = some (list (u64 1 ∷ u64 2 ∷ [])) }
      ∷ []);
  where_combinator = some or_any;
  order_by = some (record { col = codes "id"; dir = asc } ∷ []);
  limit = some 100;
}

abbrev by_name_compiled : CompiledQuery
by_name_compiled = record {
  sql =
      codes
        "SELECT \"id\" FROM \"users\" WHERE \"na\"\"me$\" LIKE $1 OR \"id\" IN ($2, $3) ORDER BY \"id\" ASC LIMIT $4";
  binds = string_value (codes "a%") ∷ u64_value 1 ∷ u64_value 2 ∷ u64_value 101 ∷ [];
}

by_name_compiles : compile_to_sql_for by_name users postgres ≡ ok by_name_compiled
unfolding compile_to_sql_for
by_name_compiles = refl

Reads-compile_to_sql_for_example : Reads postgres by_name_compiled.sql 4
Reads-compile_to_sql_for_example =
    Reads-compile_to_sql_for by_name users postgres by_name_compiled by_name_compiles

IsAllowedQuery-compile_to_sql_for_example : IsAllowedQuery by_name users by_name_compiled
IsAllowedQuery-compile_to_sql_for_example =
    IsAllowedQuery-compile_to_sql_for by_name users postgres by_name_compiled by_name_compiles

-- An identifier that tries to end its quotes.
abbrev hostile : Text
hostile = codes "a\" OR \"1"

limit_IsOther : IsOther (quote postgres) (codes " LIMIT $1")
unfolding gaze_lens.Prelude.ℕ_discrete
limit_IsOther = refl

read_ident-escape_ident_example :
    read_ident postgres (escape_ident hostile postgres ++ codes " LIMIT $1")
    ≡ some (hostile, codes " LIMIT $1")
read_ident-escape_ident_example =
    read_ident-escape_ident postgres hostile (codes " LIMIT $1") limit_IsOther
