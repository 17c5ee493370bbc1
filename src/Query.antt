-- ===== src/Query.antt =====
-- Structured queries compiled to SQL, src/source/db/query.rs and query_dto.rs. The proofs stand below.
mod Steps
mod Counts
mod Clauses
mod Reads
pub mod Allowed
pub mod Holes
pub mod Idents
mod Tests
mod Types
mod Columns
pub use Types.*
unfoldable pub use Columns.*
use gaze_lens.Prelude.{
  ℕ, zero, suc, ◌+◌, ◌-◌, ◌*◌, ◌/◌, ◌%◌, ◌^◌, Bool, true, false, not, ◌&&◌, ◌||◌, Eq, ◌==◌, ℕ_eq,
  ℕ_discrete, Text-eq, Text-discrete, ltb, leb, if◌then◌else◌, Text, codes, List, [], ◌∷◌, ◌++◌,
  map, Option, none, some, is_empty, any, find, Result, ok, err, ok_or, each, collect, ◌>>=◌, ◌>>◌,
}

-- What compilation carries along: the binds so far and PlaceholderState.
pub record Compiling : Type 0 where
  pub binds : List QueryValue
  pub next_index : ℕ

abbrev pub push_bind : QueryValue → Compiling → Compiling
push_bind v s = record s { binds = s.binds ++ v ∷ [] }

unfoldable pub next : Dialect → Compiling → Text × Compiling
unfolding digits_on
next postgres s =
    (36 ∷ digits_on (suc s.next_index) s.next_index, record s { next_index = suc s.next_index })
next _ s = (63 ∷ [], s)

unfoldable pub query_value : ScalarValue → WhereOp → Result QueryError QueryValue
query_value (string v) op = ok (string_value v)
query_value (i64 v) op = ok (i64_value v)
query_value (u64 v) op = ok (u64_value v)
query_value (f64 v) op = ok (f64_value v)
query_value (bool v) op = ok (bool_value v)
query_value null op = err (operator_requires_no_value op)

-- The last three do not reach it: the source has unreachable! there.
abbrev pub sql_operator : WhereOp → Text
sql_operator eq = codes "="
sql_operator ne = codes "!="
sql_operator gt = codes ">"
sql_operator gte = codes ">="
sql_operator lt = codes "<"
sql_operator lte = codes "<="
sql_operator like = codes "LIKE"
sql_operator _ = []

abbrev pub join : Text → List Text → Text
join sep [] = []
join sep (x ∷ []) = x
join sep (x ∷ y ∷ rest) = x ++ (sep ++ join sep (y ∷ rest))

unfoldable pub push_values : List ScalarValue → WhereOp → Compiling → Result QueryError Compiling
unfolding query_value
push_values [] op s = ok s
push_values (v ∷ rest) op s = do b ← query_value v op; push_values rest op (push_bind b s)

unfoldable pub many : Dialect → List ScalarValue → Compiling → List Text × Compiling
unfolding next
many dialect [] s = ([], s)
many dialect (v ∷ rest) s =
    let (first, t) = next dialect s in let (later, u) = many dialect rest t in (first ∷ later, u)

abbrev pub compile_null :
    Text → Text → WhereClause → Compiling → Result QueryError (Text × Compiling)
compile_null ident words clause s = elim clause.val [
  | none ↦ ok (ident ++ words, s)
  | some v ↦ err (operator_requires_no_value clause.op)
]

unfoldable pub compile_in :
    Dialect → Text → WhereClause → Compiling → Result QueryError (Text × Compiling)
unfolding push_values many
compile_in dialect ident clause s = elim clause.val [
  | none ↦ err (operator_requires_value clause.op)
  | some given ↦ elim given [
    | scalar v ↦ err (operator_requires_list clause.op)
    | list values ↦ if is_empty values then err (operator_requires_list clause.op) else do
      t ← push_values values clause.op s
      let (names, u) = many dialect values t
      ok (ident ++ (codes " IN (" ++ (join (codes ", ") names ++ codes ")")), u)
  ]
]

unfoldable pub compile_compare :
    Dialect → Text → WhereClause → Compiling → Result QueryError (Text × Compiling)
unfolding query_value next
compile_compare dialect ident clause s = elim clause.val [
  | none ↦ err (operator_requires_value clause.op)
  | some given ↦ elim given [
    | list values ↦ err (operator_requires_scalar clause.op)
    | scalar v ↦ do
      b ← query_value v clause.op
      let (name, t) = next dialect (push_bind b s)
      ok (ident ++ (32 ∷ (sql_operator clause.op ++ (32 ∷ name))), t)
  ]
]

unfoldable pub compile_op :
    WhereOp → Dialect → Text → WhereClause → Compiling → Result QueryError (Text × Compiling)
unfolding compile_in compile_compare
compile_op is_null dialect ident clause s = compile_null ident (codes " IS NULL") clause s
compile_op is_not_null dialect ident clause s = compile_null ident (codes " IS NOT NULL") clause s
compile_op in_list dialect ident clause s = compile_in dialect ident clause s
compile_op _ dialect ident clause s = compile_compare dialect ident clause s

unfoldable pub compile_where_clause :
    Dialect → WhereClause → ColumnInfo → Compiling → Result QueryError (Text × Compiling)
unfolding operator_matches_type escape_ident compile_op
compile_where_clause dialect clause column s =
    if not (operator_matches_type clause.op column.data_type)
    then err (operator_type_mismatch clause.col clause.op column.data_type)
    else compile_op clause.op dialect (escape_ident clause.col dialect) clause s

unfoldable pub compile_clauses :
    Dialect → TableSchema → List WhereClause → Compiling → Result QueryError (List Text × Compiling)
unfolding validate_column compile_where_clause
compile_clauses dialect schema [] s = ok ([], s)
compile_clauses dialect schema (clause ∷ rest) s = do
  column ← validate_column clause.col schema
  one ← compile_where_clause dialect clause column s
  more ← compile_clauses dialect schema rest one.1
  ok (one.0 ∷ more.0, more.1)

abbrev pub combinator : Option WhereCombinator → Text
combinator (some or_any) = codes " OR "
combinator _ = codes " AND "

abbrev pub or_nil : {A : Type 0} → Option (List A) → List A
or_nil none = []
or_nil (some xs) = xs

-- The text that follows the table name, empty where there are no clauses.
unfoldable pub compile_where :
    Dialect → TableSchema → CannedQuery → Compiling → Result QueryError (Text × Compiling)
unfolding compile_clauses
compile_where dialect schema q s =
    let clauses = or_nil q.where_clauses in
    if is_empty clauses then ok ([], s) else do
      parts ← compile_clauses dialect schema clauses s
      ok (codes " WHERE " ++ join (combinator q.where_combinator) parts.0, parts.1)

abbrev pub direction : OrderDir → Text
direction asc = codes " ASC"
direction desc = codes " DESC"

unfoldable pub compile_one_order : Dialect → TableSchema → OrderBy → Result QueryError Text
unfolding validate_column escape_ident
compile_one_order dialect schema order = do
  column ← validate_column order.col schema
  ok (escape_ident order.col dialect ++ direction order.dir)

unfoldable pub compile_order : Dialect → TableSchema → CannedQuery → Result QueryError Text
unfolding compile_one_order collect
compile_order dialect schema q =
    let orders = or_nil q.order_by in
    if is_empty orders then ok [] else do
      parts ← collect (compile_one_order dialect schema) orders
      ok (codes " ORDER BY " ++ join (codes ", ") parts)

abbrev pub allowed_names : List ColumnInfo → List Text
allowed_names [] = []
allowed_names (c ∷ rest) = if c.allowed then c.name ∷ allowed_names rest else allowed_names rest

abbrev pub selected_columns : CannedQuery → TableSchema → List Text
selected_columns q schema =
    if is_empty (or_nil q.columns) then allowed_names schema.columns else or_nil q.columns

unfoldable pub check_column : TableSchema → Text → Result QueryError (Unit {0})
unfolding validate_column
check_column schema column = do info ← validate_column column schema; ok tt

unfoldable pub select_list : Dialect → List Text → Text
unfolding escape_ident
select_list dialect columns =
    if is_empty columns
    then codes "1"
    else join (codes ", ") (map (λ column. escape_ident column dialect) columns)

abbrev pub hard_cap : TableSchema → ℕ
hard_cap schema = elim schema.limit_cap [ none ↦ 4294967295 | some cap ↦ cap ]

unfoldable pub row_limit : Option ℕ → ℕ → Result QueryError ℕ
unfolding ℕ_discrete
row_limit none hard = ok (hard + 1)
row_limit (some requested) hard =
    if ltb hard requested
    then err (limit_exceeds_cap requested hard)
    else if requested == hard
    then ok (requested + 1)
    else ok requested

unfoldable pub compile_to_sql_for :
    CannedQuery → TableSchema → Dialect → Result QueryError CompiledQuery
unfolding Text-discrete check_column select_list escape_ident compile_where compile_order row_limit
    next
compile_to_sql_for q schema dialect =
    if not (q.table == schema.table) then err (table_mismatch q.table schema.table) else do
      let columns = selected_columns q schema
      each (check_column schema) columns
      let head =
          codes "SELECT "
          ++ (select_list dialect columns ++ (codes " FROM " ++ escape_ident schema.table dialect))
      filter ← compile_where dialect schema q (record { binds = []; next_index = 1 })
      order ← compile_order dialect schema q
      limit ← row_limit q.limit (hard_cap schema)
      let (name, last) = next dialect filter.1
      ok (record {
        sql = head ++ (filter.0 ++ (order ++ (codes " LIMIT " ++ name)));
        binds = (push_bind (u64_value limit) last).binds;
      })
