-- ===== src/Protocol/Values/Exact.antt =====
-- The number that the text of a decimal spells, for Value::decimal of
-- crates/gaze-lens-protocol/src/value.rs.
use gaze_lens.Prelude.{
  ℕ, zero, suc, ◌+◌, ◌-◌, ◌*◌, ◌≤◌, ◌≡◌, refl, sym, ap, ◌∙◌, Bool, true, false, not, ◌&&◌, ◌||◌,
  ◌==◌, ℕ_eq, ℕ_discrete, Text-eq, leb, if◌then◌else◌, Text, codes, [], ◌∷◌, ◌++◌, length, all,
  is_digit, none, length-append, Bool-cases, inl, inr, arith, eq_true, is_empty, ok, ◌>>=◌, ◌>>◌,
  bind_ok, seq_ok, ok_is,
}
use gaze_lens.Protocol.Errors.{Error, Checked}
use gaze_lens.Protocol.Bounds.{require, cap}
use native.Mathlib.Nat.{mul_assoc}
use gaze_lens.Protocol.Values.{
  ℤ, starts_zero, pos, negsuc, Decimal, as_u8, max, strip_minus, has_minus, is_integer,
  decimal_metadata, scale_part, zeros_part, with_sign, decimal, after_point, scale_of, repeat_zero,
  with_point, spell,
}
use gaze_lens.Protocol.Values.Decimals.{length-repeat_zero}

-- The text without its points.
unfoldable pub unpointed : Text → Text
unfolding ℕ_discrete
unpointed [] = []
unpointed (b ∷ rest) = let later = unpointed rest in if b == b'.' then later else b ∷ later

-- The number that digits spell, after those that made `before`.
unfoldable pub number_from : ℕ → Text → ℕ
number_from before [] = before
number_from before (b ∷ rest) = number_from (10 * before + (b - b'0')) rest

unfoldable pub pow10 : ℕ → ℕ
pow10 zero = 1
pow10 (suc n) = 10 * pow10 n

unpointed-append : (xs ys : Text) → unpointed (xs ++ ys) ≡ unpointed xs ++ unpointed ys
unfolding unpointed
unpointed-append [] ys = refl
unpointed-append (x ∷ xs) ys = elim (Bool-cases (x == b'.')) [
  | inl point ↦ rw point (unpointed-append xs ys)
  | inr other ↦ rw other (ap (λ t. x ∷ t) (unpointed-append xs ys))
]

no_point : (x : ℕ) → is_digit x ≡ true → (x == b'.') ≡ false
unfolding ℕ_discrete
no_point x h = ground arith

unpointed_digits : (xs : Text) → all is_digit xs ≡ true → unpointed xs ≡ xs
unfolding unpointed
unpointed_digits [] h = refl
unpointed_digits (x ∷ xs) h =
    let first : is_digit x ≡ true = ground arith in
    let rest : all is_digit xs ≡ true = ground arith in
    rw (no_point x first) (ap (λ t. x ∷ t) (unpointed_digits xs rest))

unpointed-repeat_zero : (n : ℕ) → unpointed (repeat_zero n) ≡ repeat_zero n
unfolding unpointed repeat_zero ℕ_discrete
unpointed-repeat_zero zero = refl
unpointed-repeat_zero (suc n) = ap (λ t. b'0' ∷ t) (unpointed-repeat_zero n)

unpointed-with_point :
    (n : ℕ) (xs : Text) → all is_digit xs ≡ true → unpointed (with_point n xs) ≡ xs
unfolding unpointed with_point ℕ_discrete
unpointed-with_point zero xs h = unpointed_digits xs h
unpointed-with_point (suc n) [] h = refl
unpointed-with_point (suc n) (x ∷ xs) h =
    let first : is_digit x ≡ true = ground arith in
    let rest : all is_digit xs ≡ true = ground arith in
    rw (no_point x first) (ap (λ t. x ∷ t) (unpointed-with_point n xs rest))

number-append :
    (before : ℕ) (xs ys : Text)
    → number_from before (xs ++ ys) ≡ number_from (number_from before xs) ys
unfolding number_from
number-append before [] ys = refl
number-append before (x ∷ xs) ys = number-append (10 * before + (x - b'0')) xs ys

times_pow10 : (before n : ℕ) → number_from before (repeat_zero n) ≡ before * pow10 n
unfolding number_from repeat_zero pow10
times_pow10 before zero = omega arith
times_pow10 before (suc n) =
    let ten : 10 * before + 0 ≡ before * 10 = omega arith in
    times_pow10 (10 * before + 0) n ∙ ap (λ x. x * pow10 n) ten ∙ mul_assoc before 10 (pow10 n)

leading_zeros : (n : ℕ) → number_from 0 (repeat_zero n) ≡ 0
unfolding number_from repeat_zero
leading_zeros zero = refl
leading_zeros (suc n) = leading_zeros n

all-zeros : (xs : Text) (n : ℕ) → all is_digit xs ≡ true → all is_digit (xs ++ repeat_zero n) ≡ true
unfolding repeat_zero
all-zeros [] zero h = refl
all-zeros [] (suc n) h = all-zeros [] n h
all-zeros (x ∷ xs) n h =
    let first : is_digit x ≡ true = ground arith in
    let rest : all is_digit xs ≡ true = ground arith in rw (first, all-zeros xs n rest) refl

after_point-digits : (xs : Text) → all is_digit xs ≡ true → after_point xs ≡ none
unfolding after_point
after_point-digits [] h = refl
after_point-digits (x ∷ xs) h =
    let first : is_digit x ≡ true = ground arith in
    let rest : all is_digit xs ≡ true = ground arith in
    rw (no_point x first) (after_point-digits xs rest)

scale-with_point :
    (n : ℕ) (xs : Text)
    → all is_digit xs ≡ true
    → n ≤ length xs
    → scale_of (after_point (with_point n xs)) + n ≡ length xs
unfolding after_point with_point ℕ_discrete
scale-with_point zero xs h le = omega arith
scale-with_point (suc n) [] h le = absurd (omega (arith, le))
scale-with_point (suc n) (x ∷ xs) h le =
    let first : is_digit x ≡ true = ground arith in
    let rest : all is_digit xs ≡ true = ground arith in
    rw (no_point x first) (omega (arith, scale-with_point n xs rest (omega (arith, le))))

-- A body that spells the digits with so many zeros after them, and has the scale.
abbrev pub IsExact : Text → Text → ℕ → ℕ → Type 0
IsExact body digits scale zeros =
    (number_from 0 (unpointed body) ≡ number_from 0 digits * pow10 zeros)
    × (scale_of (after_point body) ≡ scale)

whole-IsExact :
    (digits : Text) (zeros : ℕ)
    → all is_digit digits ≡ true
    → IsExact (digits ++ repeat_zero zeros) digits 0 zeros
whole-IsExact digits zeros h = (
  rw
      (
        unpointed_digits (digits ++ repeat_zero zeros) (all-zeros digits zeros h),
        number-append 0 digits (repeat_zero zeros),
      )
      (times_pow10 (number_from 0 digits) zeros),
  ap scale_of (after_point-digits (digits ++ repeat_zero zeros) (all-zeros digits zeros h)),
)

nought-IsExact : (shift : ℕ) → IsExact (codes "0") (codes "0") 0 shift
unfolding unpointed number_from after_point ℕ_discrete
nought-IsExact shift = (omega arith, refl)

small-IsExact :
    (digits : Text) (scale : ℕ)
    → all is_digit digits ≡ true
    → length digits ≤ scale
    → IsExact (b'0' ∷ b'.' ∷ repeat_zero (scale - length digits) ++ digits) digits scale 0
unfolding unpointed number_from after_point pow10 ℕ_discrete
small-IsExact digits scale h le = (
  rw
      (
        unpointed-append (repeat_zero (scale - length digits)) digits,
        unpointed-repeat_zero (scale - length digits),
        unpointed_digits digits h,
        number-append 0 (repeat_zero (scale - length digits)) digits,
        leading_zeros (scale - length digits),
      )
      (omega arith),
  omega (
    arith,
    length-append (repeat_zero (scale - length digits)) digits,
    length-repeat_zero (scale - length digits),
    le,
  ),
)

long-IsExact :
    (digits : Text) (scale : ℕ)
    → all is_digit digits ≡ true
    → scale ≤ length digits
    → IsExact (with_point (length digits - scale) digits) digits scale 0
unfolding pow10
long-IsExact digits scale h le = (
  rw (unpointed-with_point (length digits - scale) digits h) (omega arith),
  omega (arith, scale-with_point (length digits - scale) digits h (omega arith), le),
)

spelled_whole :
    (digits : Text) (shift : ℕ)
    → all is_digit digits ≡ true
    → IsExact (spell digits 0 shift) digits 0 shift
unfolding spell ℕ_discrete
spelled_whole digits shift h = elim (Bool-cases (digits == codes "0")) [
  | inl nought ↦ rw (nought, spell) (rw (eq_true digits (codes "0") nought) (nought-IsExact shift))
  | inr other ↦ rw (other, spell) (whole-IsExact digits shift h)
]

not_nought : (n : ℕ) → 1 ≤ n → (n == 0) ≡ false
unfolding ℕ_discrete
not_nought n h = ground arith

middle : (a b c : Bool) → require (a && b && c) ≡ ok tt → b ≡ true
middle a b c h = ground arith

all_digits : (t : Text) → require (is_integer t) ≡ ok tt → all is_digit t ≡ true
unfolding is_integer
all_digits t h = middle (not (is_empty t)) (all is_digit t) (length t == 1 || not (starts_zero t)) h

spelled_scaled :
    (digits : Text) (scale : ℕ)
    → all is_digit digits ≡ true
    → 1 ≤ scale
    → IsExact (spell digits scale 0) digits scale 0
unfolding spell
spelled_scaled digits scale h le =
    let scaled : (scale == 0) ≡ false = not_nought scale le in
    elim (Bool-cases (leb (length digits) scale)) [
      | inl small ↦ rw (scaled, small, spell) (small-IsExact digits scale h (ground arith))
      | inr long ↦ rw (scaled, long, spell) (long-IsExact digits scale h (ground arith))
    ]

spelled :
    (digits : Text) (n : ℤ)
    → all is_digit digits ≡ true
    → IsExact (spell digits (scale_part n) (zeros_part n)) digits (scale_part n) (zeros_part n)
spelled digits (pos zero) h = spelled_whole digits 0 h
spelled digits (pos (suc n)) h = spelled_scaled digits (suc n) h (omega arith)
spelled digits (negsuc n) h = spelled_whole digits (suc n) h

-- A decimal that Value::decimal makes keeps its number: after the sign of the coefficient stands a
-- body that, read without its point, is the coefficient's number times ten to the power of a
-- negative native scale, and has the digits of a positive one after its point.
pub decimal-IsExact :
    (coefficient : Text) (native_scale : ℤ) (d : Decimal)
    → decimal coefficient native_scale ≡ ok d
    → (body : Text) × ((d.value ≡ with_sign (has_minus coefficient) body)
        × IsExact body
            (strip_minus coefficient)
            (scale_part native_scale)
            (zeros_part native_scale))
unfolding decimal
decimal-IsExact coefficient n d h =
    let digits = strip_minus coefficient in
    let body = spell digits (scale_part n) (zeros_part n) in
    let out = with_sign (has_minus coefficient) body in
    let made : ℕ × ℕ → Decimal =
      λ f. record { value = out; precision = as_u8 f.0; scale = as_u8 f.1 } in
    let width = max (length digits + zeros_part n) (scale_part n) in
    let rest : Checked Decimal = decimal_metadata out >>= λ f. ok (made f) in
    let checked = seq_ok (require (is_integer digits)) (cap width 255 >> rest) d h in
    let sized = (seq_ok (cap width 255) rest d checked.1).1 in
    let (found, (read, is)) = bind_ok (decimal_metadata out) (λ f. ok (made f)) d sized in
    (
      body,
      (
        ap (λ x. x.value) (sym (ok_is {E = Error} (made found) d is)),
        spelled digits n (all_digits digits checked.0),
      ),
    )
