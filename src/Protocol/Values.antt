-- ===== src/Protocol/Values.antt =====
-- Values on the wire, crates/gaze-lens-protocol/src/value.rs: decimals, dates and times, UUIDs and
-- the compaction of JSON. Floats and base64 are not modelled.
pub mod Decimals
pub mod Compact
pub mod Exact
mod Tests
use gaze_lens.Prelude.{
  ℕ, zero, suc, ◌+◌, ◌-◌, ◌*◌, ◌%◌, Bool, true, false, not, ◌&&◌, ◌||◌, ◌==◌, ℕ_eq, ℕ_discrete,
  Text-eq, Text-discrete, ltb, leb, if◌then◌else◌, Text, codes, List, [], ◌∷◌, ◌++◌, Option, none,
  some, length, all, is_empty, is_digit, ok, err, ◌>>=◌, ◌>>◌,
}
use gaze_lens.Protocol.Errors.{Checked}
use gaze_lens.Protocol.Bounds.{require, cap, text}

-- i64, whose ends a scale does not come near.
pub data ℤ : Type 0 where
  pos : ℕ → ℤ
  negsuc : ℕ → ℤ

pub record Decimal : Type 0 where
  pub value : Text
  pub precision : ℕ
  pub scale : ℕ

-- `as u8`
abbrev pub as_u8 : ℕ → ℕ
as_u8 n = n % 256

abbrev pub max : ℕ → ℕ → ℕ
max a b = if leb a b then b else a

-- `strip_prefix('-').unwrap_or(..)`
unfoldable pub strip_minus : Text → Text
unfolding ℕ_discrete
strip_minus [] = []
strip_minus (b ∷ rest) = if b == b'-' then rest else b ∷ rest

unfoldable pub has_minus : Text → Bool
unfolding ℕ_discrete
has_minus [] = false
has_minus (b ∷ rest) = b == b'-'

unfoldable pub starts_zero : Text → Bool
unfolding ℕ_discrete
starts_zero [] = false
starts_zero (b ∷ rest) = b == b'0'

-- Digits without a leading zero.
abbrev pub is_integer : Text → Bool
unfolding ℕ_discrete starts_zero
is_integer t = not (is_empty t) && all is_digit t && (length t == 1 || not (starts_zero t))

-- `split_once('.')`
unfoldable pub before_point : Text → Text
unfolding ℕ_discrete
before_point [] = []
before_point (b ∷ rest) = let later = before_point rest in if b == b'.' then [] else b ∷ later

unfoldable pub after_point : Text → Option Text
unfolding ℕ_discrete
after_point [] = none
after_point (b ∷ rest) = let later = after_point rest in if b == b'.' then some rest else later

-- `trim_start_matches('0')`
unfoldable pub trim_zeros : Text → Text
unfolding ℕ_discrete
trim_zeros [] = []
trim_zeros (b ∷ rest) = let later = trim_zeros rest in if b == b'0' then later else b ∷ rest

abbrev pub is_fraction : Option Text → Bool
is_fraction none = true
is_fraction (some f) = not (is_empty f) && all is_digit f

abbrev pub scale_of : Option Text → ℕ
scale_of none = 0
scale_of (some f) = length f

unfoldable pub decimal_metadata : Text → Checked (ℕ × ℕ)
unfolding strip_minus before_point after_point trim_zeros ℕ_discrete starts_zero
decimal_metadata value =
    let int = before_point (strip_minus value) in
    let frac = after_point (strip_minus value) in
    let precision = max (length (trim_zeros int) + scale_of frac) 1 in
    do
      require (is_integer int && is_fraction frac)
      cap precision 255
      ok (precision, scale_of frac)

unfoldable pub repeat_zero : ℕ → Text
repeat_zero zero = []
repeat_zero (suc n) = b'0' ∷ repeat_zero n

-- A point after so many digits.
unfoldable pub with_point : ℕ → Text → Text
with_point zero xs = b'.' ∷ xs
with_point (suc n) [] = b'.' ∷ []
with_point (suc n) (x ∷ xs) = x ∷ with_point n xs

abbrev pub scale_part : ℤ → ℕ
scale_part (pos n) = n
scale_part (negsuc n) = 0

abbrev pub zeros_part : ℤ → ℕ
zeros_part (pos n) = 0
zeros_part (negsuc n) = suc n

-- What is pushed after the sign.
unfoldable pub spell : Text → ℕ → ℕ → Text
unfolding ℕ_discrete Text-discrete repeat_zero with_point
spell digits scale zeros =
    if scale == 0
    then (if digits == codes "0" then digits else digits ++ repeat_zero zeros)
    else if leb (length digits) scale
    then b'0' ∷ b'.' ∷ repeat_zero (scale - length digits) ++ digits
    else with_point (length digits - scale) digits

abbrev pub with_sign : Bool → Text → Text
with_sign true t = b'-' ∷ t
with_sign false t = t

-- Value::decimal
unfoldable pub decimal : Text → ℤ → Checked Decimal
unfolding strip_minus has_minus ℕ_discrete starts_zero spell decimal_metadata
decimal coefficient native_scale =
    let digits = strip_minus coefficient in
    let scale = scale_part native_scale in
    let zeros = zeros_part native_scale in
    let out = with_sign (has_minus coefficient) (spell digits scale zeros) in
    do
      require (is_integer digits)
      cap (max (length digits + zeros) scale) 255
      found ← decimal_metadata out
      ok (record { value = out; precision = as_u8 found.0; scale = as_u8 found.1 })

-- The arm of Value::validate for decimals.
unfoldable pub validate_decimal : Decimal → Checked (Unit {0})
unfolding decimal_metadata ℕ_discrete
validate_decimal d = do
  text d.value
  found ← decimal_metadata d.value
  require (d.precision == found.0 && d.scale == found.1)

-- The loop of compact_json.
unfoldable pub compact : Bool → Bool → Text → Text
unfolding ℕ_discrete
compact quoted escaped [] = []
compact true true (c ∷ rest) = c ∷ compact true false rest
compact true false (c ∷ rest) =
    let after_escape = compact true true rest in
    let after_quote = compact false false rest in
    let on = compact true false rest in
    c ∷ (if c == 92 then after_escape else if c == 34 then after_quote else on)
compact false escaped (c ∷ rest) =
    let opened = compact true escaped rest in
    let on = compact false escaped rest in
    if c == 32 || c == 9 || c == 13 || c == 10 then on else c ∷ (if c == 34 then opened else on)

abbrev pub compact_json : Text → Text
compact_json s = compact false false s
