-- ===== src/Prelude/Texts.antt =====
-- Texts as their bytes: `str::len` counts bytes, and `str` is ordered by them.
use Prim.Native.Char.{code}
use Prim.Native.Nat.{ℕ}
use Prim.Native.String.{String}
use mathlib.Core.Path.{◌≡◌, refl}
use native.Mathlib.Omega.{arith}
use mathlib.Core.Bool.{Bool, true, false, ◌&&◌, ◌||◌}
use mathlib.Core.List.{List, [], ◌∷◌}
use gaze_lens.Prelude.Tests.{ltb, leb, ◌==◌, ℕ_eq}

abbrev pub Text : Type 0
Text = List ℕ

-- The bytes of an ASCII literal.
abbrev pub codes : String → Text
codes String.[] = []
codes (String.◌∷◌ c s) = code c ∷ codes s

abbrev pub is_digit : ℕ → Bool
is_digit b = leb b'0' b && leb b b'9'

abbrev pub is_lower : ℕ → Bool
is_lower b = leb b'a' b && leb b b'z'

abbrev pub is_upper : ℕ → Bool
is_upper b = leb b'A' b && leb b b'Z'

-- The order of `str`: lexicographic on bytes.
unfoldable pub text_ltb : Text → Text → Bool
text_ltb [] [] = false
text_ltb [] (y ∷ ys) = true
text_ltb (x ∷ xs) [] = false
text_ltb (x ∷ xs) (y ∷ ys) = ltb x y || x == y && text_ltb xs ys

pub text_ltb_irrefl : (x : Text) → text_ltb x x ≡ false
unfolding text_ltb
text_ltb_irrefl [] = refl
text_ltb_irrefl (x ∷ xs) = ground (arith, text_ltb_irrefl xs)

pub text_ltb_trans :
    (x y z : Text) → text_ltb x y ≡ true → text_ltb y z ≡ true → text_ltb x z ≡ true
unfolding text_ltb
text_ltb_trans [] [] z h k = absurd (ground arith)
text_ltb_trans [] (y ∷ ys) [] h k = absurd (ground arith)
text_ltb_trans [] (y ∷ ys) (z ∷ zs) h k = refl
text_ltb_trans (x ∷ xs) [] z h k = absurd (ground arith)
text_ltb_trans (x ∷ xs) (y ∷ ys) [] h k = absurd (ground arith)
text_ltb_trans (x ∷ xs) (y ∷ ys) (z ∷ zs) h k = ground (arith, text_ltb_trans xs ys zs)

pub text_ltb_total : (x y : Text) → text_ltb x y ≡ false → text_ltb y x ≡ false → x ≡ y
unfolding text_ltb
text_ltb_total [] [] h k = refl
text_ltb_total [] (y ∷ ys) h k = absurd (ground arith)
text_ltb_total (x ∷ xs) [] h k = absurd (ground arith)
text_ltb_total (x ∷ xs) (y ∷ ys) h k = ground (arith, text_ltb_total xs ys)
