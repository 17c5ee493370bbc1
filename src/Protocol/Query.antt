-- ===== src/Protocol/Query.antt =====
-- The query that a Call carries, crates/gaze-lens-protocol/src/query.rs, and the number grammar of
-- bounds.rs. A number stands as the text that it has on the wire.
pub mod Predicates
pub mod Valid
mod Tests
use gaze_lens.Prelude.{
  ℕ, suc, ◌+◌, Bool, true, false, not, ◌&&◌, ◌||◌, ◌==◌, ℕ_eq, ℕ_discrete, Text-eq, Text-discrete,
  ltb, leb, if◌then◌else◌, Text, List, [], ◌∷◌, Option, none, some, length, any, is_empty, is_digit,
  Result, ok, err, ◌>>=◌, ◌>>◌, each, each_after,
}
use gaze_lens.Protocol.Errors.{Checked, invalid_request}
use gaze_lens.Protocol.Bounds.{
  require, cap, identifier, text, scalar_bytes, max_rows, default_rows, max_columns, max_predicates,
  max_order, max_binds,
}

-- What is left after the digits that a text begins with.
unfoldable pub skip_digits : Text → Text
skip_digits [] = []
skip_digits (b ∷ rest) = let later = skip_digits rest in if is_digit b then later else b ∷ rest

-- At least one digit, and what is left after the digits.
abbrev pub some_digits : Text → Option Text
some_digits [] = none
some_digits (b ∷ rest) = if is_digit b then some (skip_digits rest) else none

unfoldable pub skip_integer : Text → Option Text
unfolding skip_digits ℕ_discrete
skip_integer [] = none
skip_integer (b ∷ rest) =
    if b == b'0'
    then some rest
    else if leb b'1' b && leb b b'9'
    then some (skip_digits rest)
    else none

unfoldable pub skip_fraction : Text → Option Text
unfolding skip_digits ℕ_discrete
skip_fraction [] = some []
skip_fraction (b ∷ rest) = if b == b'.' then some_digits rest else some (b ∷ rest)

unfoldable pub skip_sign : Text → Text
unfolding ℕ_discrete
skip_sign [] = []
skip_sign (b ∷ rest) = if b == b'+' || b == b'-' then rest else b ∷ rest

unfoldable pub skip_exponent : Text → Option Text
unfolding skip_digits skip_sign ℕ_discrete
skip_exponent [] = some []
skip_exponent (b ∷ rest) =
    if b == b'e' || b == b'E' then some_digits (skip_sign rest) else some (b ∷ rest)

unfoldable pub skip_minus : Text → Text
unfolding ℕ_discrete
skip_minus [] = []
skip_minus (b ∷ rest) = if b == b'-' then rest else b ∷ rest

-- bounds::number; the index of the source is the text that is left.
unfoldable pub number : Text → Bool
unfolding skip_minus skip_integer skip_fraction skip_exponent
number s = elim (skip_integer (skip_minus s)) [
  | none ↦ false
  | some t ↦ elim (skip_fraction t) [
    | none ↦ false
    | some u ↦ elim (skip_exponent u) [ none ↦ false | some v ↦ is_empty v ]
  ]
]

pub data Scalar : Type 0 where
  string number_text : Text → Scalar
  bool : Bool → Scalar
  null : Scalar

pub data Operand : Type 0 where
  scalar : Scalar → Operand
  list : List Scalar → Operand

pub data Op : Type 0 where
  eq ne gt gte lt lte in_list like is_null is_not_null : Op

pub data Combinator : Type 0 where
  and_all or_any : Combinator

pub data Direction : Type 0 where
  asc desc : Direction

pub record Predicate : Type 0 where
  pub col : Text
  pub op : Op
  pub val : Option Operand

pub record Order : Type 0 where
  pub col : Text
  pub dir : Direction

pub record Query : Type 0 where
  pub table : Text
  pub columns : Option (List Text)
  pub predicates : Option (List Predicate)
  pub where_combinator : Option Combinator
  pub order_by : Option (List Order)
  pub limit : Option ℕ

abbrev pub limit_of : Query → ℕ
limit_of q = elim q.limit [ none ↦ default_rows | some n ↦ n ]

abbrev pub check_column : List Text → Text → Checked (Unit {0})
check_column seen col = do identifier col; require (not (any (λ c. c == col) seen))

unfoldable pub check_columns : List Text → Checked (Unit {0})
unfolding each_after Text-discrete
check_columns cols = do
  require (not (is_empty cols))
  cap (length cols) max_columns
  each_after check_column [] cols

unfoldable pub check_scalar : Scalar → Checked (Unit {0})
unfolding number
check_scalar null = err invalid_request
check_scalar (string s) = text s
check_scalar (number_text n) = do cap (length n) scalar_bytes; require (number n)
check_scalar (bool b) = ok tt

-- The arms of the match on the operator and the value; each answers the binds that the value adds.
unfoldable pub check_absent : Option Operand → Checked ℕ
check_absent none = ok 0
check_absent (some v) = err invalid_request

unfoldable pub check_list : Option Operand → Checked ℕ
unfolding check_scalar
check_list (some (list xs)) = do require (not (is_empty xs)); each check_scalar xs; ok (length xs)
check_list _ = err invalid_request

unfoldable pub check_compared : Option Operand → Checked ℕ
unfolding check_scalar
check_compared (some (scalar x)) = do check_scalar x; ok 1
check_compared _ = err invalid_request

unfoldable pub check_value : Op → Option Operand → Checked ℕ
unfolding check_absent check_list check_compared
check_value is_null v = check_absent v
check_value is_not_null v = check_absent v
check_value in_list v = check_list v
check_value _ v = check_compared v

unfoldable pub check_predicates : List Predicate → ℕ → Checked ℕ
unfolding check_value
check_predicates [] binds = ok binds
check_predicates (p ∷ rest) binds = do
  identifier p.col
  added ← check_value p.op p.val
  check_predicates rest (binds + added)

unfoldable pub count_binds : Option (List Predicate) → Checked ℕ
unfolding check_predicates
count_binds none = ok 0
count_binds (some predicates) = do
  cap (length predicates) max_predicates
  check_predicates predicates 0

abbrev pub check_order : List Order → Checked (Unit {0})
check_order order = do cap (length order) max_order; each (λ o. identifier o.col) order

abbrev pub if_some : {A : Type 0} → (A → Checked (Unit {0})) → Option A → Checked (Unit {0})
if_some f none = ok tt
if_some f (some a) = f a

unfoldable pub validate : Query → Checked (Unit {0})
unfolding check_columns count_binds
validate q = do
  identifier q.table
  require (ltb 0 (limit_of q))
  cap (limit_of q) max_rows
  if_some check_columns q.columns
  binds ← count_binds q.predicates
  cap binds max_binds
  if_some check_order q.order_by
