-- ===== src/Query/Clauses.antt =====
-- What the clauses of a filter add to the text and to the binds.
use gaze_lens.Prelude.{
  ℕ, ◌+◌, ◌≡◌, refl, ap, true, ℕ_eq, ℕ_discrete, Text-eq, Bool-cases, Option-cases, Text, codes, [],
  ◌∷◌, ◌++◌, is_empty, length, ok, Result-cases, arith, inl, inr,
}
use gaze_lens.Query.{
  ColumnInfo, WhereClause, WhereOp, eq, ne, gt, gte, lt, lte, in_list, like, is_null, is_not_null,
  scalar, list, Dialect, Compiling, push_bind, next, query_value, push_values, many, join,
  sql_operator, compile_null, compile_in, compile_compare, compile_where_clause, compile_op,
  escape_ident, operator_matches_type,
}
use gaze_lens.Query.Reads.{is_plain}
use gaze_lens.Query.Counts.{
  Reads, Reads-plain, Reads-append, Reads-escape_ident, Reads-next, binds-next, Reads-join,
  Read-many, length-push_bind, length-push_values, Adds,
}

pub Adds-null :
    (d : Dialect) (ident words : Text) (clause : WhereClause) (s : Compiling) (r : Text × Compiling)
    → Reads d ident 0
    → is_plain words ≡ true
    → compile_null ident words clause s ≡ ok r
    → Adds d s r.1 r.0
Adds-null d ident words clause s (t, u) i w h = elim (Option-cases clause.val) [
  | inr (v, e) ↦ absurd (ground arith)
  | inl e ↦
      let text : ident ++ words ≡ t = ground arith in
      let same : s ≡ u = ground arith in
      let k = ap (λ z. length z.binds) same in
      record {
        added = 0;
        reads = rw (← text) (Reads-append d ident words 0 0 i (Reads-plain d words w));
        grown = omega (arith, k);
      }
]

-- The text of one comparison, after its identifier.
Reads-compare :
    (d : Dialect) (ident words name : Text)
    → Reads d ident 0
    → is_plain words ≡ true
    → Reads d name 1
    → Reads d (ident ++ (32 ∷ (words ++ (32 ∷ name)))) 1
unfolding ℕ_discrete
Reads-compare d ident words name i w n = Reads-append d ident (32 ∷ (words ++ (32 ∷ name))) 0 1 i (
    Reads-append d (32 ∷ []) (words ++ (32 ∷ name)) 0 1 (Reads-plain d (32 ∷ []) refl) (
      Reads-append d words (32 ∷ name) 0 1 (Reads-plain d words w)
        (Reads-append d (32 ∷ []) name 0 1 (Reads-plain d (32 ∷ []) refl) n)))

plain-sql_operator : (op : WhereOp) → is_plain (sql_operator op) ≡ true
unfolding ℕ_discrete
plain-sql_operator eq = refl
plain-sql_operator ne = refl
plain-sql_operator gt = refl
plain-sql_operator gte = refl
plain-sql_operator lt = refl
plain-sql_operator lte = refl
plain-sql_operator like = refl
plain-sql_operator in_list = refl
plain-sql_operator is_null = refl
plain-sql_operator is_not_null = refl

pub Adds-compare :
    (d : Dialect) (ident : Text) (clause : WhereClause) (s : Compiling) (r : Text × Compiling)
    → Reads d ident 0
    → compile_compare d ident clause s ≡ ok r
    → Adds d s r.1 r.0
unfolding compile_compare
Adds-compare d ident clause s (t, u) i h = elim (Option-cases clause.val) [
  | inl e ↦ absurd (ground arith)
  | inr (list vs, e) ↦ absurd (ground arith)
  | inr (scalar v, e) ↦ elim (Result-cases (query_value v clause.op)) [
    | inl (_, bad) ↦ absurd (ground arith)
    | inr (b, good) ↦
        let name = next d (push_bind b s) in
        let text : ident ++ (32 ∷ (sql_operator clause.op ++ (32 ∷ name.0))) ≡ t = ground arith in
        let same : name.1 ≡ u = ground arith in
        let k = ap (λ z. length z.binds) same in
        let kept = ap length (binds-next d (push_bind b s)) in
        let one = length-push_bind b s in
        record {
          added = 1;
          reads = rw (← text) (
              Reads-compare d ident (sql_operator clause.op) name.0 i (plain-sql_operator clause.op)
                (Reads-next d (push_bind b s)));
          grown = omega (arith, k, kept, one);
        }
  ]
]

Reads-in :
    (d : Dialect) (ident names : Text) (n : ℕ)
    → Reads d ident 0
    → Reads d names n
    → Reads d (ident ++ (codes " IN (" ++ (names ++ codes ")"))) n
unfolding ℕ_discrete
Reads-in d ident names n i r =
    let closed = Reads-append d names (codes ")") n 0 r (Reads-plain d (codes ")") refl) in
    let opened =
      Reads-append d (codes " IN (") (names ++ codes ")") 0 (n + 0)
        (Reads-plain d (codes " IN (") refl) closed in
    let all =
      Reads-append d ident (codes " IN (" ++ (names ++ codes ")")) 0 (0 + (n + 0)) i opened in
    record { balanced = all.balanced; counted = let c = all.counted in omega (arith, c) }

pub Adds-in :
    (d : Dialect) (ident : Text) (clause : WhereClause) (s : Compiling) (r : Text × Compiling)
    → Reads d ident 0
    → compile_in d ident clause s ≡ ok r
    → Adds d s r.1 r.0
unfolding compile_in ℕ_discrete
Adds-in d ident clause s (t, u) i h = elim (Option-cases clause.val) [
  | inl e ↦ absurd (ground arith)
  | inr (scalar v, e) ↦ absurd (ground arith)
  | inr (list vs, e) ↦ elim (Bool-cases (is_empty vs)) [
    | inl empty ↦ absurd (ground arith)
    | inr more ↦ elim (Result-cases (push_values vs clause.op s)) [
      | inl (_, bad) ↦ absurd (ground arith)
      | inr (p, good) ↦
          let names = many d vs p in
          let text : ident ++ (codes " IN (" ++ (join (codes ", ") names.0 ++ codes ")")) ≡ t =
            ground arith in
          let same : names.1 ≡ u = ground arith in
          let k = ap (λ z. length z.binds) same in
          let (rd, kept) = Read-many d vs p in
          let kept' = ap length kept in
          let one = length-push_values vs clause.op s p good in
          record {
            added = length vs;
            reads = rw (← text) (
                Reads-in d ident (join (codes ", ") names.0) (length vs) i
                  (Reads-join d (codes ", ") names.0 (length vs) refl rd));
            grown = omega (arith, k, kept', one);
          }
    ]
  ]
]

Adds-compile_op :
    (op : WhereOp) (d : Dialect) (ident : Text) (clause : WhereClause) (s : Compiling)
    (r : Text × Compiling)
    → Reads d ident 0
    → compile_op op d ident clause s ≡ ok r
    → Adds d s r.1 r.0
unfolding compile_op ℕ_discrete
Adds-compile_op is_null d ident clause s r i h =
    Adds-null d ident (codes " IS NULL") clause s r i refl h
Adds-compile_op is_not_null d ident clause s r i h =
    Adds-null d ident (codes " IS NOT NULL") clause s r i refl h
Adds-compile_op in_list d ident clause s r i h = Adds-in d ident clause s r i h
Adds-compile_op eq d ident clause s r i h = Adds-compare d ident clause s r i h
Adds-compile_op ne d ident clause s r i h = Adds-compare d ident clause s r i h
Adds-compile_op gt d ident clause s r i h = Adds-compare d ident clause s r i h
Adds-compile_op gte d ident clause s r i h = Adds-compare d ident clause s r i h
Adds-compile_op lt d ident clause s r i h = Adds-compare d ident clause s r i h
Adds-compile_op lte d ident clause s r i h = Adds-compare d ident clause s r i h
Adds-compile_op like d ident clause s r i h = Adds-compare d ident clause s r i h

pub Adds-compile_where_clause :
    (d : Dialect) (clause : WhereClause) (column : ColumnInfo) (s : Compiling)
    (r : Text × Compiling)
    → compile_where_clause d clause column s ≡ ok r
    → Adds d s r.1 r.0
unfolding compile_where_clause
Adds-compile_where_clause d clause column s r h =
    elim (Bool-cases (operator_matches_type clause.op column.data_type)) [
      | inr e ↦ absurd (ground arith)
      | inl e ↦
          Adds-compile_op clause.op d (escape_ident clause.col d) clause s r
            (Reads-escape_ident d clause.col) (ground arith)
    ]
