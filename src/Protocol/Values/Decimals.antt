-- ===== src/Protocol/Values/Decimals.antt =====
-- The checks of decimal_metadata on what Value::decimal writes, crates/gaze-lens-protocol/src/value.rs.
use gaze_lens.Prelude.{
  ℕ, zero, suc, ◌+◌, ◌-◌, ◌≤◌, ◌≡◌, refl, sym, ap, ◌∙◌, Bool, true, false, ◌&&◌, ◌==◌, ℕ_eq,
  ℕ_discrete, Text-eq, leb, Text, codes, [], ◌∷◌, length, length-append, ok, ◌>>=◌, ◌>>◌, bind_ok,
  seq_ok, ok_is, Bool-cases, inl, inr, arith,
}
use gaze_lens.Protocol.Errors.{Error, Checked}
use gaze_lens.Protocol.Bounds.{require, cap, text, scalar_bytes}
use gaze_lens.Protocol.Values.{
  ℤ, Decimal, as_u8, max, strip_minus, has_minus, is_integer, is_fraction, before_point,
  after_point, trim_zeros, scale_of, decimal_metadata, repeat_zero, with_point, scale_part,
  zeros_part, spell, with_sign, decimal, validate_decimal,
}

pub length-repeat_zero : (n : ℕ) → length (repeat_zero n) ≡ n
unfolding repeat_zero
length-repeat_zero zero = refl
length-repeat_zero (suc n) = ap suc (length-repeat_zero n)

length-with_point : (n : ℕ) (xs : Text) → length (with_point n xs) ≡ suc (length xs)
unfolding with_point
length-with_point zero xs = refl
length-with_point (suc n) [] = refl
length-with_point (suc n) (x ∷ xs) = ap suc (length-with_point n xs)

length-spell :
    (digits : Text) (scale zeros : ℕ)
    → length (spell digits scale zeros) ≤ max (length digits + zeros) scale + 2
unfolding spell
length-spell digits scale zeros = elim (Bool-cases (scale == 0)) [
  | inl whole ↦ elim (Bool-cases (digits == codes "0")) [
    | inl nought ↦ rw (whole, nought) (ground arith)
    | inr other ↦
        rw (whole, other)
          (ground (arith, length-append digits (repeat_zero zeros), length-repeat_zero zeros))
  ]
  | inr scaled ↦ elim (Bool-cases (leb (length digits) scale)) [
    | inl small ↦
        rw (scaled, small)
          (ground (
            arith,
            length-append (repeat_zero (scale - length digits)) digits,
            length-repeat_zero (scale - length digits),
          ))
    | inr long ↦
        rw (scaled, long) (ground (arith, length-with_point (length digits - scale) digits))
  ]
]

capped_le : (size most : ℕ) → cap size most ≡ ok tt → size ≤ most
capped_le size most h = ground arith

max_left : (a b : ℕ) → b ≤ max (a + b) 1
max_left a b = ground arith

length-with_sign : (minus : Bool) (t : Text) → length (with_sign minus t) ≤ suc (length t)
length-with_sign true t = omega arith
length-with_sign false t = omega arith

both_same : (a b : ℕ) → require (a == a && b == b) ≡ ok tt
unfolding ℕ_discrete
both_same a b = ground arith

validated :
    (out : Text) (found : ℕ × ℕ)
    → decimal_metadata out ≡ ok found
    → length out ≤ scalar_bytes
    → as_u8 found.0 ≡ found.0
    → as_u8 found.1 ≡ found.1
    → validate_decimal (record { value = out; precision = as_u8 found.0; scale = as_u8 found.1 })
      ≡ ok tt
unfolding validate_decimal
validated out found read short p s =
    let fits : text out ≡ ok tt = ground arith in rw (fits, read, p, s) (both_same found.0 found.1)

metadata_small : (value : Text) (p s : ℕ) → decimal_metadata value ≡ ok (p, s) → (p ≤ 255) × (s ≤ p)
unfolding decimal_metadata
metadata_small value p s h =
    let int = before_point (strip_minus value) in
    let frac = after_point (strip_minus value) in
    let precision = max (length (trim_zeros int) + scale_of frac) 1 in
    let found : Checked (ℕ × ℕ) = ok (precision, scale_of frac) in
    let capped =
      (seq_ok (require (is_integer int && is_fraction frac)) (cap precision 255 >> found) (p, s)
        h).1 in
    let parts = seq_ok (cap precision 255) found (p, s) capped in
    let same = ok_is {E = Error} (precision, scale_of frac) (p, s) parts.1 in
    let in_cap : precision ≤ 255 = capped_le precision 255 parts.0 in
    let covers : scale_of frac ≤ precision = max_left (length (trim_zeros int)) (scale_of frac) in
    let of_p : precision ≡ p = ap (λ x. x.0) same in
    let of_s : scale_of frac ≡ s = ap (λ x. x.1) same in
    (omega (arith, in_cap, of_p), omega (arith, covers, of_p, of_s))

same_u8 : (n : ℕ) → n ≤ 255 → as_u8 n ≡ n
same_u8 n h = omega (arith, h)

-- A coefficient and a scale that Value::decimal accepts become a decimal that Value::validate
-- accepts: its precision and scale are those of its text, with nothing lost in a byte.
pub decimal_valid :
    (coefficient : Text) (native_scale : ℤ) (d : Decimal)
    → decimal coefficient native_scale ≡ ok d
    → validate_decimal d ≡ ok tt
unfolding decimal
decimal_valid coefficient native_scale d h =
    let digits = strip_minus coefficient in
    let scale = scale_part native_scale in
    let zeros = zeros_part native_scale in
    let out = with_sign (has_minus coefficient) (spell digits scale zeros) in
    let made : ℕ × ℕ → Decimal =
      λ f. record { value = out; precision = as_u8 f.0; scale = as_u8 f.1 } in
    let width = max (length digits + zeros) scale in
    let rest : Checked Decimal = decimal_metadata out >>= λ f. ok (made f) in
    let capped = (seq_ok (require (is_integer digits)) (cap width 255 >> rest) d h).1 in
    let parts = seq_ok (cap width 255) rest d capped in
    let (found, (read, is)) = bind_ok (decimal_metadata out) (λ f. ok (made f)) d parts.1 in
    let small = metadata_small out found.0 found.1 read in
    let in_width = capped_le width 255 parts.0 in
    let short : length out ≤ scalar_bytes = omega (
      arith,
      length-with_sign (has_minus coefficient) (spell digits scale zeros),
      length-spell digits scale zeros,
      in_width,
    ) in
    ap validate_decimal (sym (ok_is {E = Error} (made found) d is))
    ∙ validated out found read short (same_u8 found.0 small.0)
        (same_u8 found.1 (omega (arith, small.0, small.1)))
