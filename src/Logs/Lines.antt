-- ===== src/Logs/Lines.antt =====
-- The lines that pass a test, and the first of them.
use gaze_lens.Prelude.{
  ℕ, zero, suc, ◌≡◌, refl, Bool, ltb, if◌then◌else◌, Text, List, [], ◌∷◌, length, arith,
}

abbrev pub take {ℓ} : {A : Type ℓ} → ℕ → List A → List A
take n [] = []
take zero (x ∷ xs) = []
take (suc n) (x ∷ xs) = x ∷ take n xs

unfoldable pub filter : (Text → Bool) → List Text → List Text
filter p [] = []
filter p (l ∷ ls) = let later = filter p ls in if p l then l ∷ later else later

pub length-take {ℓ} :
    {A : Type ℓ} (k : ℕ) (xs : List A) → ltb (length (take k xs)) (length xs) ≡ ltb k (length xs)
length-take k [] = ground arith
length-take zero (x ∷ xs) = refl
length-take (suc k) (x ∷ xs) = ground (arith, length-take k xs)
