-- ===== src/Protocol/Strings/Shape.antt =====
-- What a string of JSON is, beside the string that the scanner reads.
use gaze_lens.Prelude.{
  ℕ, zero, suc, ◌+◌, ◌-◌, ◌*◌, ◌≡◌, refl, sym, ap, ◌∙◌, Bool, true, false, not, ◌&&◌, ◌||◌, ◌==◌,
  ℕ_eq, ℕ_discrete, leb, if◌then◌else◌, Text, [], ◌∷◌, ◌++◌, append_assoc, Option, none, some, inl,
  inr, length, length-append, is_empty, ok, arith, Gives, gives, fails, Gives-if, Gives-bind,
  Gives-seq, Gives-mono, eq_true, ok_or, Bool-cases,
}
use gaze_lens.Protocol.Faults.{hold, within, malformed, Fault}
use gaze_lens.Protocol.Strings.{
  hex_digit, hex_digits, expect, is_high, is_low, is_char, is_short, pair, code_point, unicode,
  escape, is_opaque, character, characters, first, between, string,
}

-- What stands behind an opening quote up to the closing one, the end: no control byte, and a quote
-- only behind a backslash that is not itself behind one.
unfoldable pub closes : Bool → Text → Bool
unfolding ℕ_discrete
closes escaped [] = false
closes true (b ∷ rest) = leb 32 b && closes false rest
closes false (b ∷ rest) =
    let later = closes (b == b'\\') rest in if b == b'"' then is_empty rest else leb 32 b && later

abbrev pub IsQuoted : Text → Type 0
IsQuoted slice = (inside : Text) × (slice ≡ b'"' ∷ inside) × (closes false inside ≡ true)

abbrev Plain : Text → Type 0
Plain taken = (t : Text) → closes false (taken ++ t) ≡ closes false t

abbrev Reads : Text → Text → Type 0
Reads start rest = (taken : Text) × (start ≡ taken ++ rest) × Plain taken

Plain-append : (xs ys : Text) → Plain xs → Plain ys → Plain (xs ++ ys)
Plain-append xs ys p q t = ap (closes false) (append_assoc xs ys t) ∙ p (ys ++ t) ∙ q t

hex_digit-Plain : (b d : ℕ) → hex_digit b ≡ some d → Plain (b ∷ [])
unfolding hex_digit closes ℕ_discrete
hex_digit-Plain b d h t = ground arith

pub expect_is : (c : ℕ) (start : Text) → Gives (λ rest. start ≡ c ∷ rest) (expect c start)
unfolding expect
expect_is c [] = fails
expect_is c (b ∷ rest) =
    Gives-if (b == c) (λ e. gives (ap (λ x. x ∷ rest) (eq_true b c e))) (λ e. fails)

ok_or-Gives : (o : Option ℕ) → Gives (λ d. o ≡ some d) (ok_or malformed o)
ok_or-Gives none = fails
ok_or-Gives (some d) = gives refl

-- A plain byte before what else is read.
Reads-byte :
    (b : ℕ) (start rest : Text) → Plain (b ∷ []) → Reads start rest → Reads (b ∷ start) rest
Reads-byte b start rest p (taken, from, plain) =
    (b ∷ taken, ap (λ x. b ∷ x) from, Plain-append (b ∷ []) taken p plain)

Reads-trans : (start mid rest : Text) → Reads start mid → Reads mid rest → Reads start rest
Reads-trans start mid rest (xs, from, p) (ys, after, q) = (
  xs ++ ys,
  from ∙ ap (λ x. xs ++ x) after ∙ sym (append_assoc xs ys rest),
  Plain-append xs ys p q,
)

hex_digits-Reads :
    (n v : ℕ) (start : Text) → Gives (λ (value, rest). Reads start rest) (hex_digits n v start)
unfolding hex_digits
hex_digits-Reads zero v start = gives ([], refl, λ t. refl)
hex_digits-Reads (suc n) v [] = fails
hex_digits-Reads (suc n) v (b ∷ start) = Gives-bind (ok_or-Gives (hex_digit b)) λ d is.
    Gives-mono (hex_digits n (v * 16 + d) start)
      (λ (value, rest) r. Reads-byte b start rest (hex_digit-Plain b d is) r)
      (hex_digits-Reads n (v * 16 + d) start)

escape-Plain : Plain (b'\\' ∷ b'u' ∷ [])
unfolding closes ℕ_discrete
escape-Plain t = refl

pair-Reads : (cp : ℕ) (start : Text) → Gives (λ (value, rest). Reads start rest) (pair cp start)
unfolding pair
pair-Reads cp start = Gives-bind (expect_is b'\\' start) λ rest₁ one.
    Gives-bind (expect_is b'u' rest₁) λ rest₂ two.
      Gives-bind (hex_digits-Reads 4 0 rest₂) λ (low, rest₃) three.
        Gives-seq (hold (is_low low)) λ is. gives (
          Reads-trans start rest₂ rest₃
            (b'\\' ∷ b'u' ∷ [], one ∙ ap (λ x. b'\\' ∷ x) two, escape-Plain) three)

code_point-Reads : (start : Text) → Gives (λ (value, rest). Reads start rest) (code_point start)
unfolding code_point
code_point-Reads start = Gives-bind (hex_digits-Reads 4 0 start) λ (cp, rest₁) one.
    Gives-if (is_high cp)
      (λ high.
        Gives-mono (pair cp rest₁) (λ (value, rest) two. Reads-trans start rest₁ rest one two)
          (pair-Reads cp rest₁))
      (λ other. gives one)

unicode-Reads : (start : Text) → Gives (λ (len, ascii, rest). Reads start rest) (unicode start)
unfolding unicode
unicode-Reads start =
    Gives-bind (code_point-Reads start)
      λ (cp, rest) one. Gives-seq (hold (is_char cp)) λ is. gives one

-- What is read behind a backslash closes nothing.
abbrev Escapes : Text → Text → Type 0
Escapes start rest =
    (taken : Text) × (start ≡ taken ++ rest)
    × ((t : Text) → closes true (taken ++ t) ≡ closes false t)

short-Escapes : (b : ℕ) → is_short b ≡ true → (t : Text) → closes true (b ∷ t) ≡ closes false t
unfolding is_short closes ℕ_discrete
short-Escapes b h t = ground arith

u-Escapes : (b : ℕ) → (b == b'u') ≡ true → (t : Text) → closes true (b ∷ t) ≡ closes false t
unfolding closes ℕ_discrete
u-Escapes b h t = ground arith

escape_reads : (start : Text) → Gives (λ (len, ascii, rest). Escapes start rest) (escape start)
unfolding escape
escape_reads [] = fails
escape_reads (b ∷ start) =
    Gives-if (is_short b) (λ short. gives (b ∷ [], refl, short-Escapes b short))
      (λ other.
        Gives-if (b == b'u')
          (λ u.
            Gives-mono (unicode start)
              (λ (len, ascii, rest) (taken, from, plain).
                (b ∷ taken, ap (λ x. b ∷ x) from, λ t. u-Escapes b u (taken ++ t) ∙ plain t))
              (unicode-Reads start))
          (λ no_u. fails))

-- A character behind a byte that is no quote and no control byte.
abbrev pub Steps : ℕ → Text → Text → Type 0
Steps b start rest =
    (taken : Text) × (start ≡ taken ++ rest)
    × ((t : Text) → closes (b == b'\\') (taken ++ t) ≡ closes false t)

lead_reads :
    (b : ℕ) (start : Text)
    → Gives {E = Fault}
        (λ (len, ascii, rest). Steps b start rest)
        (if b == b'\\' then escape start else ok (1, b, start))
lead_reads b start = elim (Bool-cases (b == b'\\')) [
  | inl slash ↦ rw slash (escape_reads start)
  | inr other ↦ rw other (gives ([], refl, λ t. refl))
]

pub character_reads :
    (max : ℕ) (opaque : Bool) (decoded b : ℕ) (start : Text)
    → Gives (λ (total, rest). Steps b start rest) (character max opaque decoded b start)
unfolding character
character_reads max opaque decoded b start =
    Gives-bind (lead_reads b start) λ (len, ascii, rest) steps.
      Gives-seq (within (decoded + len) max)
        λ small. Gives-seq (hold (not opaque || is_opaque ascii)) λ clear. gives steps

-- The characters up to and with the closing quote.
abbrev Closes : Text → Text → Type 0
Closes start rest = (inside : Text) × (start ≡ inside ++ rest) × (closes false inside ≡ true)

closes-byte :
    (b : ℕ) (t : Text)
    → (b == b'"') ≡ false
    → leb b 31 ≡ false
    → closes false (b ∷ t) ≡ closes (b == b'\\') t
unfolding closes ℕ_discrete
closes-byte b t h k = ground arith

closes-quote : (b : ℕ) → (b == b'"') ≡ true → closes false (b ∷ []) ≡ true
unfolding closes ℕ_discrete
closes-quote b h = ground arith

Closes-byte :
    (b : ℕ) (start mid rest : Text)
    → (b == b'"') ≡ false
    → leb b 31 ≡ false
    → Steps b start mid
    → Closes mid rest
    → Closes (b ∷ start) rest
Closes-byte b start mid rest h k (taken, from, steps) (inside, after, closed) = (
  b ∷ (taken ++ inside),
  ap (λ x. b ∷ x) (from ∙ ap (λ x. taken ++ x) after ∙ sym (append_assoc taken inside rest)),
  closes-byte b (taken ++ inside) h k ∙ steps inside ∙ closed,
)

characters-Closes :
    (steps max : ℕ) (opaque : Bool) (decoded : ℕ) (start : Text)
    → Gives (λ (total, rest). Closes start rest) (characters steps max opaque decoded start)
unfolding characters
characters-Closes zero max opaque decoded [] = fails
characters-Closes (suc steps) max opaque decoded [] = fails
characters-Closes zero max opaque decoded (b ∷ start) = fails
characters-Closes (suc steps) max opaque decoded (b ∷ start) =
    Gives-if (b == b'"') (λ quote. gives (b ∷ [], refl, closes-quote b quote))
      (λ other.
        Gives-if (leb b 31) (λ control. fails)
          (λ printed. Gives-bind (character_reads max opaque decoded b start) λ (total, mid) one.
            Gives-mono (characters steps max opaque total mid)
              (λ (len, rest) two. Closes-byte b start mid rest other printed one two)
              (characters-Closes steps max opaque total mid)))

first-append : (xs ys : Text) → first (length xs) (xs ++ ys) ≡ xs
unfolding first
first-append [] ys = refl
first-append (x ∷ xs) ys = ap (λ t. x ∷ t) (first-append xs ys)

pub between-append : (xs ys : Text) → between (xs ++ ys) ys ≡ xs
between-append xs ys =
    let size : length (xs ++ ys) - length ys ≡ length xs = omega (arith, length-append xs ys) in
    rw size (first-append xs ys)

-- What the scanner reads as a string is one, and stands before what is left.
pub string-IsQuoted :
    (max : ℕ) (opaque : Bool) (start : Text)
    → Gives (λ (slice, rest). (start ≡ slice ++ rest) × IsQuoted slice) (string max opaque start)
unfolding string
string-IsQuoted max opaque start = Gives-bind (expect_is b'"' start) λ rest one.
    Gives-bind (characters-Closes (length rest) max opaque 0 rest)
      λ (decoded, later) (inside, from, closed).
        Gives-seq (hold (not opaque || decoded == 32)) λ right.
          let whole : start ≡ (b'"' ∷ inside) ++ later = one ∙ ap (λ x. b'"' ∷ x) from in
          let slice : between start later ≡ b'"' ∷ inside =
            rw whole (between-append (b'"' ∷ inside) later) in
          gives (whole ∙ ap (λ x. x ++ later) (sym slice), (inside, slice, closed))
