-- ===== src/Query/Allowed.antt =====
-- A compiled query touches allowed columns alone and asks for a bounded number of rows.
use gaze_lens.Prelude.{
  ℕ, ◌+◌, ◌≤◌, ◌≡◌, true, ℕ_eq, Text-eq, Text, List, [], ◌∷◌, ◌++◌, Option, none, some, All,
  is_empty, ok, each, collect, Collected-collect, Result-cases, arith, inl, inr,
}
use gaze_lens.Query.{
  TableSchema, WhereClause, OrderBy, QueryValue, CannedQuery, Dialect, CompiledQuery, Compiling,
  u64_value, next, validate_column, check_column, compile_where_clause, compile_clauses,
  compile_one_order, or_nil, selected_columns, compile_where, compile_order, row_limit, hard_cap,
  compile_to_sql_for,
}
use gaze_lens.Query.Steps.{Compiled-compile, IsAllowed, IsAllowed-validate_column}

All-each :
    (schema : TableSchema) (columns : List Text)
    → each (check_column schema) columns ≡ ok tt
    → All (IsAllowed schema) columns
unfolding check_column
All-each schema [] h = tt
All-each schema (c ∷ cs) h = elim (Result-cases (validate_column c schema)) [
  | inl (_, bad) ↦ absurd (ground arith)
  | inr (info, good) ↦
      (IsAllowed-validate_column schema c info good, All-each schema cs (ground arith))
]

All-clauses :
    (d : Dialect) (schema : TableSchema) (cs : List WhereClause) (s : Compiling)
    (r : List Text × Compiling)
    → compile_clauses d schema cs s ≡ ok r
    → All (λ c. IsAllowed schema c.col) cs
unfolding compile_clauses
All-clauses d schema [] s r h = tt
All-clauses d schema (c ∷ cs) s r h = elim (Result-cases (validate_column c.col schema)) [
  | inl (_, bad) ↦ absurd (ground arith)
  | inr (column, valid) ↦ elim (Result-cases (compile_where_clause d c column s)) [
    | inl (_, bad) ↦ absurd (ground arith)
    | inr (one, good) ↦ elim (Result-cases (compile_clauses d schema cs one.1)) [
      | inl (_, bad) ↦ absurd (ground arith)
      | inr (more, rest) ↦ (
        IsAllowed-validate_column schema c.col column valid,
        All-clauses d schema cs one.1 more rest,
      )
    ]
  ]
]

All-where :
    (d : Dialect) (schema : TableSchema) (q : CannedQuery) (s : Compiling) (r : Text × Compiling)
    → compile_where d schema q s ≡ ok r
    → All (λ c. IsAllowed schema c.col) (or_nil q.where_clauses)
unfolding compile_where
All-where d schema q s r h =
    elim (Result-cases (compile_clauses d schema (or_nil q.where_clauses) s)) [
      | inr (parts, good) ↦ All-clauses d schema (or_nil q.where_clauses) s parts good
      | inl (_, bad) ↦ empty_case (or_nil q.where_clauses) (ground arith)
    ]
  where
    empty_case : (cs : List WhereClause) → is_empty cs ≡ true → All (λ c. IsAllowed schema c.col) cs
    empty_case [] e = tt
    empty_case (c ∷ cs) e = absurd (ground arith)

All-orders :
    (d : Dialect) (schema : TableSchema) (os : List OrderBy) (parts : List Text)
    → collect (compile_one_order d schema) os ≡ ok parts
    → All (λ o. IsAllowed schema o.col) os
unfolding compile_one_order
All-orders d schema [] parts h = tt
All-orders d schema (o ∷ os) parts h =
    let c = Collected-collect (compile_one_order d schema) o os parts h in
    let head = c.head in
    elim (Result-cases (validate_column o.col schema)) [
      | inl (_, bad) ↦ absurd (ground arith)
      | inr (info, good) ↦
          (IsAllowed-validate_column schema o.col info good, All-orders d schema os c.later c.tail)
    ]

All-order :
    (d : Dialect) (schema : TableSchema) (q : CannedQuery) (t : Text)
    → compile_order d schema q ≡ ok t
    → All (λ o. IsAllowed schema o.col) (or_nil q.order_by)
unfolding compile_order
All-order d schema q t h =
    elim (Result-cases (collect (compile_one_order d schema) (or_nil q.order_by))) [
      | inr (parts, good) ↦ All-orders d schema (or_nil q.order_by) parts good
      | inl (_, bad) ↦ empty_case (or_nil q.order_by) (ground arith)
    ]
  where
    empty_case : (os : List OrderBy) → is_empty os ≡ true → All (λ o. IsAllowed schema o.col) os
    empty_case [] e = tt
    empty_case (o ∷ os) e = absurd (ground arith)

row_limit-bounded : (limit : Option ℕ) (hard n : ℕ) → row_limit limit hard ≡ ok n → n ≤ hard + 1
unfolding row_limit
row_limit-bounded none hard n h = ground arith
row_limit-bounded (some requested) hard n h = ground arith

-- What a compilation that succeeds has checked of the query.
pub record IsAllowedQuery (q : CannedQuery) (schema : TableSchema) (c : CompiledQuery)
    : Type 0 where
  pub table : q.table ≡ schema.table
  pub selected : All (IsAllowed schema) (selected_columns q schema)
  pub filtered : All (λ w. IsAllowed schema w.col) (or_nil q.where_clauses)
  pub ordered : All (λ o. IsAllowed schema o.col) (or_nil q.order_by)
  pub last_bind :
      (earlier : List QueryValue) × (rows : ℕ) × (c.binds ≡ earlier ++ u64_value rows ∷ [])
      × (rows ≤ hard_cap schema + 1)

-- If a query compiles, then it names the schema's table, every column that it selects, filters by
-- or orders by is a column of the schema that its policy allows, and its last bind, the row limit,
-- is at most one above the hard cap.
pub IsAllowedQuery-compile_to_sql_for :
    (q : CannedQuery) (schema : TableSchema) (d : Dialect) (c : CompiledQuery)
    → compile_to_sql_for q schema d ≡ ok c
    → IsAllowedQuery q schema c
IsAllowedQuery-compile_to_sql_for q schema d c h =
    let s = Compiled-compile q schema d c h in
    record {
      table = s.same_table;
      selected = All-each schema (selected_columns q schema) s.columns;
      filtered =
          All-where d schema q (record { binds = []; next_index = 1 }) (s.filter, s.state)
            s.filters;
      ordered = All-order d schema q s.order s.orders;
      last_bind = (
        (next d s.state).1.binds,
        s.limit,
        s.binds,
        row_limit-bounded q.limit (hard_cap schema) s.limit s.limits,
      );
    }
