-- ===== src/Protocol/Strings/Settled.antt =====
-- The scanner of strings of crates/gaze-lens-protocol/src/bounds.rs never lacks a round.
use gaze_lens.Prelude.{
  ℕ, zero, suc, ◌+◌, ◌*◌, ◌≤◌, ◌≡◌, refl, ap, Bool, true, false, not, ◌||◌, ◌==◌, ℕ_eq, leb,
  if◌then◌else◌, Text, [], ◌∷◌, Option, none, some, length, length-append, ok, err, ok_or, ◌>>=◌,
  ◌>>◌, arith, Gives, gives, fails,
}
use gaze_lens.Protocol.Faults.{Scanned, malformed, exceeded, hold, within}
use gaze_lens.Protocol.Strings.{
  hex_digit, hex_digits, expect, is_high, is_low, is_char, is_short, pair, code_point, unicode,
  escape, is_opaque, character, characters, string,
}
use gaze_lens.Protocol.Strings.Shape.{Steps, character_reads}

-- An answer that the source has: a value, or the error of `require` or of `cap`.
pub data Settles {A : Type 0} : Scanned A → Type 0 where
  accepted : {a : A} → Settles (ok a)
  declined : Settles (err malformed)
  capped : Settles (err exceeded)

module _ {A : Type 0} where
  pub Settles-if :
      (b : Bool) {x y : Scanned A}
      → (b ≡ true → Settles x)
      → (b ≡ false → Settles y)
      → Settles (if b then x else y)
  Settles-if true yes_so no_so = yes_so refl
  Settles-if false yes_so no_so = no_so refl

  pub Settles-ok_or : (o : Option A) → Settles (ok_or malformed o)
  Settles-ok_or none = declined
  Settles-ok_or (some a) = accepted

pub Settles-hold : (b : Bool) → Settles (hold b)
Settles-hold b = Settles-if b (λ y. accepted) (λ n. declined)

pub Settles-within : (size max : ℕ) → Settles (within size max)
Settles-within size max = Settles-if (leb size max) (λ y. accepted) (λ n. capped)

module _ {A B : Type 0} where
  pub Settles-bind :
      {m : Scanned A} {f : A → Scanned B}
      → Settles m
      → ((a : A) → Settles (f a))
      → Settles (m >>= f)
  Settles-bind (accepted {a}) later = later a
  Settles-bind declined later = declined
  Settles-bind capped later = capped

  -- The same where what follows settles only on what the step gives.
  pub Settles-after :
      {P : A → Type 0} {m : Scanned A} {f : A → Scanned B}
      → Settles m
      → Gives P m
      → ((a : A) → P a → Settles (f a))
      → Settles (m >>= f)
  Settles-after (accepted {a}) (gives p) later = later a p
  Settles-after declined fails later = declined
  Settles-after capped fails later = capped

module _ {B : Type 0} where
  pub Settles-seq :
      (m : Scanned (Unit {0})) {k : Scanned B}
      → Settles m
      → (m ≡ ok tt → Settles k)
      → Settles (m >> k)
  Settles-seq (ok t) s later = later refl
  Settles-seq (err e) declined later = declined
  Settles-seq (err e) capped later = capped

pub Settles-expect : (c : ℕ) (start : Text) → Settles (expect c start)
unfolding expect
Settles-expect c [] = declined
Settles-expect c (b ∷ rest) = Settles-if (b == c) (λ y. accepted) (λ n. declined)

Settles-hex_digits : (n v : ℕ) (start : Text) → Settles (hex_digits n v start)
unfolding hex_digits
Settles-hex_digits zero v start = accepted
Settles-hex_digits (suc n) v [] = declined
Settles-hex_digits (suc n) v (b ∷ rest) =
    Settles-bind (Settles-ok_or (hex_digit b)) λ d. Settles-hex_digits n (v * 16 + d) rest

Settles-pair : (cp : ℕ) (start : Text) → Settles (pair cp start)
unfolding pair
Settles-pair cp start = Settles-bind (Settles-expect b'\\' start) λ rest₁.
    Settles-bind (Settles-expect b'u' rest₁) λ rest₂.
      Settles-bind (Settles-hex_digits 4 0 rest₂)
        λ (low, rest₃). Settles-seq (hold (is_low low)) (Settles-hold (is_low low)) λ is. accepted

Settles-unicode : (start : Text) → Settles (unicode start)
unfolding unicode code_point
Settles-unicode start =
    Settles-bind
      (Settles-bind (Settles-hex_digits 4 0 start)
        λ (cp, later). Settles-if (is_high cp) (λ high. Settles-pair cp later) (λ other. accepted))
      λ (cp, later). Settles-seq (hold (is_char cp)) (Settles-hold (is_char cp)) λ is. accepted

Settles-escape : (start : Text) → Settles (escape start)
unfolding escape
Settles-escape [] = declined
Settles-escape (b ∷ rest) =
    Settles-if (is_short b) (λ short. accepted)
      (λ other. Settles-if (b == b'u') (λ u. Settles-unicode rest) (λ no_u. declined))

Settles-character :
    (max : ℕ) (opaque : Bool) (decoded b : ℕ) (rest : Text)
    → Settles (character max opaque decoded b rest)
unfolding character
Settles-character max opaque decoded b rest =
    Settles-bind (Settles-if (b == b'\\') (λ y. Settles-escape rest) (λ n. accepted))
      λ (len, ascii, later).
        Settles-seq (within (decoded + len) max) (Settles-within (decoded + len) max) λ small.
          Settles-seq (hold (not opaque || is_opaque ascii))
            (Settles-hold (not opaque || is_opaque ascii)) λ clear. accepted

no_longer : (b : ℕ) (start rest : Text) → Steps b start rest → length rest ≤ length start
no_longer b start rest (taken, from, steps) =
    omega (arith, ap length from, length-append taken rest)

-- A round for each byte is enough.
Settles-characters :
    (steps max : ℕ) (opaque : Bool) (decoded : ℕ) (start : Text)
    → length start ≤ steps
    → Settles (characters steps max opaque decoded start)
unfolding characters
Settles-characters zero max opaque decoded [] h = declined
Settles-characters (suc steps) max opaque decoded [] h = declined
Settles-characters zero max opaque decoded (b ∷ rest) h = absurd (omega (arith, h))
Settles-characters (suc steps) max opaque decoded (b ∷ rest) h =
    Settles-if (b == b'"') (λ quote. accepted)
      (λ other.
        Settles-if (leb b 31) (λ control. declined)
          (λ printed.
            Settles-after (Settles-character max opaque decoded b rest)
              (character_reads max opaque decoded b rest)
              λ (total, later) taken.
                Settles-characters steps max opaque total later
                  (omega (arith, no_longer b rest later taken, h))))

pub Settles-string : (max : ℕ) (opaque : Bool) (start : Text) → Settles (string max opaque start)
unfolding string
Settles-string max opaque start = Settles-bind (Settles-expect b'"' start) λ rest.
    Settles-bind (Settles-characters (length rest) max opaque 0 rest (omega arith))
      λ (decoded, later).
        Settles-seq (hold (not opaque || decoded == 32))
          (Settles-hold (not opaque || decoded == 32)) λ right. accepted
