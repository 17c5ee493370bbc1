-- ===== src/Query/Steps.antt =====
-- What each stage of a compilation that succeeds has passed through.
use gaze_lens.Prelude.{
  ℕ, ◌≡◌, true, ◌==◌, Text-eq, Bool-cases, Option-cases, Text, codes, [], ◌++◌, In, find, find-In,
  ok, each, Result-cases, arith, inl, inr,
}
use gaze_lens.Query.{
  ColumnInfo, TableSchema, CannedQuery, Dialect, CompiledQuery, Compiling, u64_value, push_bind,
  next, validate_column, check_column, selected_columns, select_list, escape_ident, compile_where,
  compile_order, row_limit, hard_cap, compile_to_sql_for,
}

pub record Compiled (q : CannedQuery) (schema : TableSchema) (d : Dialect) (c : CompiledQuery)
    : Type 0 where
  pub filter : Text
  pub state : Compiling
  pub order : Text
  pub limit : ℕ
  pub same_table : q.table ≡ schema.table
  pub columns : each (check_column schema) (selected_columns q schema) ≡ ok tt
  pub filters :
      compile_where d schema q (record { binds = []; next_index = 1 }) ≡ ok (filter, state)
  pub orders : compile_order d schema q ≡ ok order
  pub limits : row_limit q.limit (hard_cap schema) ≡ ok limit
  pub sql :
      c.sql
      ≡ (codes "SELECT "
          ++ (select_list d (selected_columns q schema)
              ++ (codes " FROM " ++ escape_ident schema.table d)))
        ++ (filter ++ (order ++ (codes " LIMIT " ++ (next d state).0)))
  pub binds : c.binds ≡ (push_bind (u64_value limit) (next d state).1).binds

pub Compiled-compile :
    (q : CannedQuery) (schema : TableSchema) (d : Dialect) (c : CompiledQuery)
    → compile_to_sql_for q schema d ≡ ok c
    → Compiled q schema d c
unfolding compile_to_sql_for
Compiled-compile q schema d c h = elim (Bool-cases (q.table == schema.table)) [
  | inr e ↦ absurd (ground arith)
  | inl e ↦ elim (Result-cases (each (check_column schema) (selected_columns q schema))) [
    | inl (_, bad) ↦ absurd (ground arith)
    | inr (t, cols) ↦
        elim (Result-cases (compile_where d schema q (record { binds = []; next_index = 1 }))) [
          | inl (_, bad) ↦ absurd (ground arith)
          | inr (f, fs) ↦ elim (Result-cases (compile_order d schema q)) [
            | inl (_, bad) ↦ absurd (ground arith)
            | inr (o, os) ↦ elim (Result-cases (row_limit q.limit (hard_cap schema))) [
              | inl (_, bad) ↦ absurd (ground arith)
              | inr (l, ls) ↦ record {
                filter = f.0;
                state = f.1;
                order = o;
                limit = l;
                same_table = ground arith;
                columns = cols;
                filters = fs;
                orders = os;
                limits = ls;
                sql = ground arith;
                binds = ground arith;
              }
            ]
          ]
        ]
  ]
]

-- A column that the schema has under this name and allows.
abbrev pub IsAllowed : TableSchema → Text → Type 0
IsAllowed schema column =
    (info : ColumnInfo) × In info schema.columns × (info.name ≡ column) × (info.allowed ≡ true)

pub IsAllowed-validate_column :
    (schema : TableSchema) (column : Text) (info : ColumnInfo)
    → validate_column column schema ≡ ok info
    → IsAllowed schema column
unfolding validate_column
IsAllowed-validate_column schema column info h =
    elim (Option-cases (find (λ c. c.name == column) schema.columns)) [
      | inl none_found ↦ absurd (ground arith)
      | inr (found, e) ↦
          let (m, s) = find-In (λ c. c.name == column) schema.columns e in
          (found, m, ground arith, ground arith)
    ]
