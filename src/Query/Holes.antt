-- ===== src/Query/Holes.antt =====
-- A compiled query has a placeholder for each bind.
use gaze_lens.Prelude.{
  ℕ, ◌+◌, ◌≡◌, refl, ap, true, ℕ_eq, ℕ_discrete, Text-eq, Bool-cases, Text, codes, List, [], ◌∷◌,
  ◌++◌, map, Option, none, some, All, is_empty, length, ok, collect, Result-cases, arith, inl, inr,
  All-collect,
}
use gaze_lens.Query.{
  TableSchema, WhereClause, WhereCombinator, and_all, or_any, OrderBy, OrderDir, asc, desc,
  CannedQuery, Dialect, CompiledQuery, Compiling, u64_value, next, validate_column, join,
  combinator, or_nil, direction, compile_where_clause, compile_clauses, compile_one_order,
  selected_columns, select_list, escape_ident, compile_where, compile_order, compile_to_sql_for,
}
use gaze_lens.Query.Reads.{is_plain}
use gaze_lens.Query.Steps.{Compiled-compile}
use gaze_lens.Query.Counts.{
  Reads, Reads-plain, Reads-append, Reads-escape_ident, Reads-next, binds-next, Read, Read-cons,
  Reads-join, length-push_bind, Adds,
}
use gaze_lens.Query.Clauses.{Adds-compile_where_clause}

record AddsAll (d : Dialect) (s u : Compiling) (ts : List Text) : Type 0 where
  added : ℕ
  read : Read d ts added
  grown : length u.binds ≡ length s.binds + added

AddsAll-compile_clauses :
    (d : Dialect) (schema : TableSchema) (cs : List WhereClause) (s : Compiling)
    (r : List Text × Compiling)
    → compile_clauses d schema cs s ≡ ok r
    → AddsAll d s r.1 r.0
unfolding compile_clauses
AddsAll-compile_clauses d schema [] s (ts, u) h =
    let none_left : [] ≡ ts = ground arith in
    let same : s ≡ u = ground arith in
    let k = ap (λ z. length z.binds) same in
    record {
      added = 0;
      read = rw (← none_left) (record { balanced = tt; counted = refl });
      grown = omega (arith, k);
    }
AddsAll-compile_clauses d schema (c ∷ cs) s (ts, u) h =
    elim (Result-cases (validate_column c.col schema)) [
      | inl (_, bad) ↦ absurd (ground arith)
      | inr (column, valid) ↦ elim (Result-cases (compile_where_clause d c column s)) [
        | inl (_, bad) ↦ absurd (ground arith)
        | inr (one, good) ↦ elim (Result-cases (compile_clauses d schema cs one.1)) [
          | inl (_, bad) ↦ absurd (ground arith)
          | inr (more, rest) ↦
              let a = Adds-compile_where_clause d c column s one good in
              let b = AddsAll-compile_clauses d schema cs one.1 more rest in
              let texts : one.0 ∷ more.0 ≡ ts = ground arith in
              let same : more.1 ≡ u = ground arith in
              let k = ap (λ z. length z.binds) same in
              let grown_a = a.grown in
              let grown_b = b.grown in
              record {
                added = a.added + b.added;
                read = rw (← texts) (Read-cons d one.0 more.0 a.added b.added a.reads b.read);
                grown = omega (arith, k, grown_a, grown_b);
              }
        ]
      ]
    ]

plain-combinator : (c : Option WhereCombinator) → is_plain (combinator c) ≡ true
unfolding ℕ_discrete
plain-combinator none = refl
plain-combinator (some and_all) = refl
plain-combinator (some or_any) = refl

Adds-compile_where :
    (d : Dialect) (schema : TableSchema) (q : CannedQuery) (s : Compiling) (r : Text × Compiling)
    → compile_where d schema q s ≡ ok r
    → Adds d s r.1 r.0
unfolding compile_where ℕ_discrete
Adds-compile_where d schema q s (t, u) h = elim (Bool-cases (is_empty (or_nil q.where_clauses))) [
  | inl e ↦
      let text : [] ≡ t = ground arith in
      let same : s ≡ u = ground arith in
      let k = ap (λ z. length z.binds) same in
      record { added = 0; reads = rw (← text) (Reads-plain d [] refl); grown = omega (arith, k) }
  | inr e ↦ elim (Result-cases (compile_clauses d schema (or_nil q.where_clauses) s)) [
    | inl (_, bad) ↦ absurd (ground arith)
    | inr (parts, good) ↦
        let a = AddsAll-compile_clauses d schema (or_nil q.where_clauses) s parts good in
        let body = join (combinator q.where_combinator) parts.0 in
        let text : codes " WHERE " ++ body ≡ t = ground arith in
        let same : parts.1 ≡ u = ground arith in
        let k = ap (λ z. length z.binds) same in
        let grown_a = a.grown in
        record {
          added = 0 + a.added;
          reads = rw (← text) (
              Reads-append d (codes " WHERE ") body 0 a.added (Reads-plain d (codes " WHERE ") refl)
                (Reads-join d (combinator q.where_combinator) parts.0 a.added
                  (plain-combinator q.where_combinator) a.read));
          grown = omega (arith, k, grown_a);
        }
  ]
]

plain-direction : (dir : OrderDir) → is_plain (direction dir) ≡ true
unfolding ℕ_discrete
plain-direction asc = refl
plain-direction desc = refl

-- Texts that hold no placeholder.
Read-idents : (d : Dialect) (ts : List Text) → All (λ t. Reads d t 0) ts → Read d ts 0
Read-idents d [] h = record { balanced = tt; counted = refl }
Read-idents d (t ∷ ts) (r, h) =
    let c = Read-cons d t ts 0 0 r (Read-idents d ts h) in
    record { balanced = c.balanced; counted = c.counted }

Reads-compile_one_order :
    (d : Dialect) (schema : TableSchema) (o : OrderBy) (t : Text)
    → compile_one_order d schema o ≡ ok t
    → Reads d t 0
unfolding compile_one_order
Reads-compile_one_order d schema o t h = elim (Result-cases (validate_column o.col schema)) [
  | inl (_, bad) ↦ absurd (ground arith)
  | inr (info, good) ↦
      let text : escape_ident o.col d ++ direction o.dir ≡ t = ground arith in
      rw (← text) (
        Reads-append d (escape_ident o.col d) (direction o.dir) 0 0 (Reads-escape_ident d o.col)
          (Reads-plain d (direction o.dir) (plain-direction o.dir)))
]

All-unit : {A : Type 0} (xs : List A) → All (λ x. Unit {0}) xs
All-unit [] = tt
All-unit (x ∷ xs) = (tt, All-unit xs)

Reads-compile_order :
    (d : Dialect) (schema : TableSchema) (q : CannedQuery) (t : Text)
    → compile_order d schema q ≡ ok t
    → Reads d t 0
unfolding compile_order ℕ_discrete
Reads-compile_order d schema q t h = elim (Bool-cases (is_empty (or_nil q.order_by))) [
  | inl e ↦ let text : [] ≡ t = ground arith in rw (← text) (Reads-plain d [] refl)
  | inr e ↦ elim (Result-cases (collect (compile_one_order d schema) (or_nil q.order_by))) [
    | inl (_, bad) ↦ absurd (ground arith)
    | inr (parts, good) ↦
        let all =
          All-collect (compile_one_order d schema) (λ x. Unit {0}) (λ t. Reads d t 0)
            (λ o t k u. Reads-compile_one_order d schema o t k) (or_nil q.order_by) parts good
            (All-unit (or_nil q.order_by)) in
        let text : codes " ORDER BY " ++ join (codes ", ") parts ≡ t = ground arith in
        rw (← text) (
          Reads-append d (codes " ORDER BY ") (join (codes ", ") parts) 0 0
            (Reads-plain d (codes " ORDER BY ") refl)
            (Reads-join d (codes ", ") parts 0 refl (Read-idents d parts all)))
  ]
]

All-escaped :
    (d : Dialect) (columns : List Text)
    → All (λ t. Reads d t 0) (map (λ column. escape_ident column d) columns)
All-escaped d [] = tt
All-escaped d (c ∷ cs) = (Reads-escape_ident d c, All-escaped d cs)

Reads-select_list : (d : Dialect) (columns : List Text) → Reads d (select_list d columns) 0
unfolding select_list ℕ_discrete
Reads-select_list d [] = Reads-plain d (codes "1") refl
Reads-select_list d (c ∷ cs) =
    let idents = map (λ column. escape_ident column d) (c ∷ cs) in
    Reads-join d (codes ", ") idents 0 refl (Read-idents d idents (All-escaped d (c ∷ cs)))

-- If a query compiles, then in its SQL every quoted identifier is closed, whatever characters it
-- holds, and there are as many placeholders outside the quotes as there are binds.
pub Reads-compile_to_sql_for :
    (q : CannedQuery) (schema : TableSchema) (d : Dialect) (c : CompiledQuery)
    → compile_to_sql_for q schema d ≡ ok c
    → Reads d c.sql (length c.binds)
unfolding ℕ_discrete
Reads-compile_to_sql_for q schema d c h =
    let s = Compiled-compile q schema d c h in
    let a =
      Adds-compile_where d schema q (record { binds = []; next_index = 1 }) (s.filter, s.state)
        s.filters in
    let o = Reads-compile_order d schema q s.order s.orders in
    let columns = select_list d (selected_columns q schema) in
    let table = escape_ident schema.table d in
    let name = (next d s.state).0 in
    let from =
      Reads-append d (codes " FROM ") table 0 0 (Reads-plain d (codes " FROM ") refl)
        (Reads-escape_ident d schema.table) in
    let list =
      Reads-append d columns (codes " FROM " ++ table) 0 0
        (Reads-select_list d (selected_columns q schema)) from in
    let head =
      Reads-append d (codes "SELECT ") (columns ++ (codes " FROM " ++ table)) 0 0
        (Reads-plain d (codes "SELECT ") refl) list in
    let limit =
      Reads-append d (codes " LIMIT ") name 0 1 (Reads-plain d (codes " LIMIT ") refl)
        (Reads-next d s.state) in
    let tail = Reads-append d s.order (codes " LIMIT " ++ name) 0 1 o limit in
    let body =
      Reads-append d s.filter (s.order ++ (codes " LIMIT " ++ name)) a.added 1 a.reads tail in
    let all =
      Reads-append d (codes "SELECT " ++ (columns ++ (codes " FROM " ++ table)))
        (s.filter ++ (s.order ++ (codes " LIMIT " ++ name))) 0 (a.added + 1) head body in
    let size = ap length s.binds in
    let pushed = length-push_bind (u64_value s.limit) (next d s.state).1 in
    let kept = ap length (binds-next d s.state) in
    let grown_a = a.grown in
    let n : a.added + 1 ≡ length c.binds = omega (arith, size, pushed, kept, grown_a) in
    rw (s.sql, ← n)
      (record { balanced = all.balanced; counted = let k = all.counted in omega (arith, k) })
