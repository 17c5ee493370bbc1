-- ===== src/Protocol/Query/Valid.antt =====
-- The queries that Query::validate accepts.
use gaze_lens.Prelude.{
  ℕ, ◌≤◌, ◌<◌, ◌≡◌, ◌≢◌, refl, ap, ◌∙◌, true, not, ◌==◌, ℕ_eq, ltb, Text-eq, Text, List, [], Option,
  none, some, length, any_none, any_of_none, is_empty, All, All-mono, Pairs, each, each_after,
  each_after_ok, each_after-eq-ok, ok, err, ◌>>◌, ◌>>=◌, Result-cases, arith, inl, inr,
}
use gaze_lens.Protocol.Errors.{Checked}
use gaze_lens.Protocol.Bounds.{
  require, cap, identifier, max_rows, max_columns, max_predicates, max_order, max_binds,
}
use gaze_lens.Protocol.Checks.{
  Accepts, require_iff, cap_iff, both_iff, each_iff, IsIdentifier, identifier_iff,
}
use gaze_lens.Protocol.Query.{
  Predicate, Order, Query, limit_of, check_column, check_columns, count_binds, check_order, if_some,
  validate,
}
use gaze_lens.Protocol.Query.Predicates.{IsPredicate, Answers, Answers-predicates, total_binds}

abbrev pub AllPredicates : Option (List Predicate) → Type 0
AllPredicates none = Unit
AllPredicates (some ps) = (length ps ≤ max_predicates) × All IsPredicate ps

abbrev pub binds_of_all : Option (List Predicate) → ℕ
binds_of_all none = 0
binds_of_all (some ps) = total_binds ps

Answers-count_binds :
    (ps : Option (List Predicate)) → Answers (count_binds ps) (AllPredicates ps) (binds_of_all ps)
unfolding count_binds
Answers-count_binds none = ((λ k h. (tt, ground arith)), λ h. refl)
Answers-count_binds (some ps) = elim (Result-cases (cap (length ps) max_predicates)) [
  | inl (_, bad) ↦ (
    (λ k h. absurd (ground arith)),
    λ h. let good = (cap_iff (length ps) max_predicates).1 h.0 in absurd (ground arith),
  )
  | inr (t, good) ↦
      let (f, g) = Answers-predicates ps 0 in
      (
        (λ k h.
            let (a, b) = f k (ground arith) in
            (((cap_iff (length ps) max_predicates).0 good, a), omega (arith, b))),
        λ h. let all = g h.1 in rw good (all ∙ ap ok (omega arith)),
      )
]

-- No two columns are one.
abbrev pub AreColumns : List Text → Type 0
AreColumns cols =
    (not (is_empty cols) ≡ true)
    × ((length cols ≤ max_columns) × (All IsIdentifier cols × Pairs (λ c d. c ≢ d) cols))

check_column_sound :
    (seen : List Text) (col : Text)
    → check_column seen col ≡ ok tt
    → IsIdentifier col × All (λ c. c ≢ col) seen
check_column_sound seen col h = elim (Result-cases (identifier col)) [
  | inl (_, bad) ↦ absurd (ground arith)
  | inr (t, good) ↦
      let fresh = any_none (λ c. c == col) seen (ground arith) in
      ((identifier_iff col).0 good, All-mono (λ c e. λ same. ground arith) seen fresh)
]

check_column_ok :
    (seen : List Text) (col : Text)
    → IsIdentifier col
    → All (λ c. c ≢ col) seen
    → check_column seen col ≡ ok tt
check_column_ok seen col i fresh =
    let good = (identifier_iff col).1 i in
    let unseen = any_of_none (λ c. c == col) seen (All-mono (λ c n. ground arith) seen fresh) in
    rw (good, unseen) refl

columns_iff : (cols : List Text) → Accepts (check_columns cols) (AreColumns cols)
unfolding check_columns
columns_iff cols =
    let loop : Accepts (each_after check_column [] cols)
        (All IsIdentifier cols × Pairs (λ c d. c ≢ d) cols) =
      (
        (λ h. each_after-eq-ok IsIdentifier (λ c d. c ≢ d) check_column check_column_sound cols h),
        λ h. each_after_ok IsIdentifier (λ c d. c ≢ d) check_column check_column_ok cols h.0 h.1,
      ) in
    let (f, g) =
      both_iff (require (not (is_empty cols)))
        (cap (length cols) max_columns >> each_after check_column [] cols)
        (require_iff (not (is_empty cols)))
        (both_iff (cap (length cols) max_columns) (each_after check_column [] cols)
          (cap_iff (length cols) max_columns) loop) in
    (f, g)

abbrev pub IsOrder : List Order → Type 0
IsOrder order = (length order ≤ max_order) × All (λ o. IsIdentifier o.col) order

order_iff : (order : List Order) → Accepts (check_order order) (IsOrder order)
order_iff order =
    both_iff (cap (length order) max_order) (each (λ o. identifier o.col) order)
      (cap_iff (length order) max_order)
      (each_iff (λ o. identifier o.col) (λ o. identifier_iff o.col) order)

abbrev pub OrNone : {A : Type 0} → (A → Type 0) → Option A → Type 0
OrNone P none = Unit
OrNone P (some a) = P a

pub if_some_iff :
    {A : Type 0} {P : A → Type 0} (f : A → Checked (Unit {0}))
    → ((a : A) → Accepts (f a) (P a))
    → (o : Option A) → Accepts (if_some f o) (OrNone P o)
if_some_iff f p none = ((λ h. tt), λ h. refl)
if_some_iff f p (some a) = p a

-- The queries within the protocol's ceilings.
abbrev pub IsQuery : Query → Type 0
IsQuery q =
    IsIdentifier q.table
    × ((0 < limit_of q)
        × ((limit_of q ≤ max_rows)
            × (OrNone AreColumns q.columns
                × (AllPredicates q.predicates
                    × ((binds_of_all q.predicates ≤ max_binds) × OrNone IsOrder q.order_by)))))

counted_iff :
    {Q : Type 0} (m : Checked ℕ) (P : Type 0) (n max : ℕ) (k : Checked (Unit {0}))
    → Answers m P n
    → Accepts k Q
    → Accepts (m >>= λ binds. cap binds max >> k) (P × ((n ≤ max) × Q))
counted_iff (ok c) P n max k (f, g) b =
    let (p, e) = f c refl in
    let (u, v) = both_iff (cap c max) k (cap_iff c max) b in
    ((λ h. let (fits, q) = u h in (p, (rw (← e) fits, q))), λ (p', (fits, q)). v (rw e fits, q))
counted_iff (err x) P n max k (f, g) b =
    ((λ h. absurd (ground arith)), λ h. let bad = g h.0 in absurd (ground arith))

pub positive_iff : (n : ℕ) → Accepts (require (ltb 0 n)) (0 < n)
positive_iff n = ((λ h. ground arith), λ h. ground arith)

-- Query::validate accepts exactly the queries whose table is a well-formed identifier, whose row limit lies between 1 and 1,000, whose columns, where given, are between 1 and 128 distinct well-formed identifiers, whose predicates are at most 64, each on a well-formed column with an operand that its operator takes, with at most 1,024 binds together, and whose order has at most 16 well-formed columns.
pub IsQuery-validate : (q : Query) → Accepts (validate q) (IsQuery q)
unfolding validate
IsQuery-validate q =
    let rest =
      counted_iff (count_binds q.predicates) (AllPredicates q.predicates)
        (binds_of_all q.predicates) max_binds (if_some check_order q.order_by)
        (Answers-count_binds q.predicates) (if_some_iff check_order order_iff q.order_by) in
    let tail =
      (count_binds q.predicates >>= λ binds.
      cap binds max_binds >> if_some check_order q.order_by) in
    let third =
      both_iff (if_some check_columns q.columns) tail
        (if_some_iff check_columns columns_iff q.columns) rest in
    let second =
      both_iff (cap (limit_of q) max_rows) (if_some check_columns q.columns >> tail)
        (cap_iff (limit_of q) max_rows) third in
    let first =
      both_iff (require (ltb 0 (limit_of q)))
        (cap (limit_of q) max_rows >> (if_some check_columns q.columns >> tail))
        (positive_iff (limit_of q)) second in
    both_iff (identifier q.table)
      (require (ltb 0 (limit_of q))
        >> (cap (limit_of q) max_rows >> (if_some check_columns q.columns >> tail)))
      (identifier_iff q.table) first
