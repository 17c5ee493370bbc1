-- ===== src/Protocol/Query/Predicates.antt =====
-- The predicates that Query::validate accepts, and the binds that it counts.
use gaze_lens.Prelude.{
  ℕ, ◌+◌, ◌≤◌, ◌≡◌, refl, ap, ◌∙◌, true, false, not, ℕ_eq, Text-eq, List, [], ◌∷◌, Option, none,
  some, length, is_empty, All, each, ok, err, ◌>>=◌, Result-cases, arith, inl, inr,
}
use gaze_lens.Protocol.Errors.{Checked}
use gaze_lens.Protocol.Bounds.{require, cap, identifier, scalar_bytes}
use gaze_lens.Protocol.Checks.{
  Accepts, require_iff, cap_iff, both_iff, each_iff, IsIdentifier, identifier_iff,
}
use gaze_lens.Protocol.Query.{
  Scalar, string, number_text, bool, null, Operand, scalar, list, Op, eq, ne, gt, gte, lt, lte,
  in_list, like, is_null, is_not_null, Predicate, number, check_scalar, check_value, check_absent,
  check_list, check_compared, check_predicates,
}

abbrev pub IsScalar : Scalar → Type 0
IsScalar (string s) = length s ≤ scalar_bytes
IsScalar (number_text n) = (length n ≤ scalar_bytes) × (number n ≡ true)
IsScalar (bool b) = Unit
IsScalar null = ⊥

-- The operands that an operator takes.
abbrev pub FitsList : Option Operand → Type 0
FitsList (some (list xs)) = (is_empty xs ≡ false) × All IsScalar xs
FitsList _ = ⊥

abbrev pub FitsCompared : Option Operand → Type 0
FitsCompared (some (scalar x)) = IsScalar x
FitsCompared _ = ⊥

abbrev pub Fits : Op → Option Operand → Type 0
Fits is_null v = v ≡ none
Fits is_not_null v = v ≡ none
Fits in_list v = FitsList v
Fits _ v = FitsCompared v

abbrev pub binds_of : Option Operand → ℕ
binds_of none = 0
binds_of (some (scalar x)) = 1
binds_of (some (list xs)) = length xs

abbrev pub total_binds : List Predicate → ℕ
total_binds [] = 0
total_binds (p ∷ ps) = binds_of p.val + total_binds ps

check_scalar_iff : (x : Scalar) → Accepts (check_scalar x) (IsScalar x)
unfolding check_scalar
check_scalar_iff (string s) = cap_iff (length s) scalar_bytes
check_scalar_iff (number_text n) =
    both_iff (cap (length n) scalar_bytes) (require (number n)) (cap_iff (length n) scalar_bytes)
      (require_iff (number n))
check_scalar_iff (bool b) = ((λ h. tt), λ h. refl)
check_scalar_iff null = ((λ h. absurd (ground arith)), λ h. absurd h)

-- A check that answers a number: what it accepts, and the number then.
abbrev pub Answers : Checked ℕ → Type 0 → ℕ → Type 0
Answers m P n = ((k : ℕ) → m ≡ ok k → P × (k ≡ n)) × (P → m ≡ ok n)

Answers-after :
    {P : Type 0} (m : Checked (Unit {0})) (n : ℕ) → Accepts m P → Answers (m >>= λ _. ok n) P n
Answers-after (ok t) n (f, g) = ((λ k h. (f refl, ground arith)), λ h. refl)
Answers-after (err e) n (f, g) =
    ((λ k h. absurd (ground arith)), λ h. absurd (let bad = g h in ground arith))

Answers-absent : (v : Option Operand) → Answers (check_absent v) (v ≡ none) (binds_of v)
unfolding check_absent
Answers-absent none = ((λ k h. (refl, ground arith)), λ h. refl)
Answers-absent (some v) = ((λ k h. absurd (ground arith)), λ h. absurd (ground arith))

not_empty_iff :
    {A : Type 0} (xs : List A) → Accepts (require (not (is_empty xs))) (is_empty xs ≡ false)
not_empty_iff [] = ((λ h. absurd (ground arith)), λ h. absurd (ground arith))
not_empty_iff (x ∷ xs) = ((λ h. refl), λ h. refl)

Answers-list : (v : Option Operand) → Answers (check_list v) (FitsList v) (binds_of v)
unfolding check_list
Answers-list none = ((λ k h. absurd (ground arith)), λ h. absurd h)
Answers-list (some (scalar x)) = ((λ k h. absurd (ground arith)), λ h. absurd h)
Answers-list (some (list [])) = ((λ k h. absurd (ground arith)), λ h. absurd (ground arith))
Answers-list (some (list (x ∷ xs))) =
    let all = each_iff check_scalar check_scalar_iff (x ∷ xs) in
    let (f, g) = Answers-after (each check_scalar (x ∷ xs)) (length (x ∷ xs)) all in
    ((λ k h. let (a, b) = f k h in ((refl, a), b)), λ (e, a). g a)

Answers-compared : (v : Option Operand) → Answers (check_compared v) (FitsCompared v) (binds_of v)
unfolding check_compared
Answers-compared none = ((λ k h. absurd (ground arith)), λ h. absurd h)
Answers-compared (some (list xs)) = ((λ k h. absurd (ground arith)), λ h. absurd h)
Answers-compared (some (scalar x)) = Answers-after (check_scalar x) 1 (check_scalar_iff x)

Answers-value : (op : Op) (v : Option Operand) → Answers (check_value op v) (Fits op v) (binds_of v)
unfolding check_value
Answers-value is_null v = Answers-absent v
Answers-value is_not_null v = Answers-absent v
Answers-value in_list v = Answers-list v
Answers-value eq v = Answers-compared v
Answers-value ne v = Answers-compared v
Answers-value gt v = Answers-compared v
Answers-value gte v = Answers-compared v
Answers-value lt v = Answers-compared v
Answers-value lte v = Answers-compared v
Answers-value like v = Answers-compared v

abbrev pub IsPredicate : Predicate → Type 0
IsPredicate p = IsIdentifier p.col × Fits p.op p.val

pub Answers-predicates :
    (ps : List Predicate) (binds : ℕ)
    → Answers (check_predicates ps binds) (All IsPredicate ps) (binds + total_binds ps)
unfolding check_predicates
Answers-predicates [] binds = ((λ k h. (tt, ground arith)), λ h. ap ok (omega arith))
Answers-predicates (p ∷ ps) binds = elim (Result-cases (identifier p.col)) [
  | inl (_, bad) ↦ (
    (λ k h. absurd (ground arith)),
    λ h. let good = (identifier_iff p.col).1 h.0.0 in absurd (ground arith),
  )
  | inr (t, named) ↦ elim (Result-cases (check_value p.op p.val)) [
    | inl (_, bad) ↦ (
      (λ k h. absurd (ground arith)),
      λ h. let good = (Answers-value p.op p.val).1 h.0.1 in absurd (ground arith),
    )
    | inr (n, good) ↦
        let (fit, count) = (Answers-value p.op p.val).0 n good in
        let (f, g) = Answers-predicates ps (binds + n) in
        let ident = (identifier_iff p.col).0 named in
        (
          (λ k h. let (a, b) = f k (ground arith) in (((ident, fit), a), omega (arith, b, count))),
          λ h.
              let rest = g h.1 in
              let sum : binds + n + total_binds ps ≡ binds + (binds_of p.val + total_binds ps) =
                omega (arith, count) in
              rw (named, good) (rest ∙ ap ok sum),
        )
  ]
]
