-- ===== src/Prelude/Lists.antt =====
-- Lists measured by native numbers, their Boolean tests, and the predicates that those decide.
use Prim.Native.Nat.{ℕ, suc, ◌+◌}
use mathlib.Core.Path.{◌≡◌, refl, ap, sym, ◌∙◌}
use mathlib.Core.Logic.{◌⊎◌, inl, inr}
use mathlib.Core.Bool.{Bool, true, false, ◌&&◌, ◌||◌}
use mathlib.Core.Option.{Option, none, some}
use mathlib.Core.List.{List, [], ◌∷◌, ◌++◌, map}
use native.Mathlib.Omega.{arith}
use gaze_lens.Prelude.Tests.{if◌then◌else◌}

module _ {ℓ} {A : Type ℓ} where
  abbrev pub length : List A → ℕ
  length [] = 0
  length (x ∷ xs) = suc (length xs)

  abbrev pub any : (A → Bool) → List A → Bool
  any p [] = false
  any p (x ∷ xs) = p x || any p xs

  abbrev pub all : (A → Bool) → List A → Bool
  all p [] = true
  all p (x ∷ xs) = p x && all p xs

  -- The first element that passes, as `Iterator::find`.
  abbrev pub find : (A → Bool) → List A → Option A
  find p [] = none
  find p (x ∷ xs) = if p x then some x else find p xs

  abbrev pub is_empty : List A → Bool
  is_empty [] = true
  is_empty (x ∷ xs) = false

  pub length-append : (xs ys : List A) → length (xs ++ ys) ≡ length xs + length ys
  length-append [] ys = omega arith
  length-append (x ∷ xs) ys = omega (arith, length-append xs ys)

module _ {ℓ κ} {A : Type ℓ} {B : Type κ} where
  pub length-map : (f : A → B) (xs : List A) → length (map f xs) ≡ length xs
  length-map f [] = refl
  length-map f (x ∷ xs) = ap suc (length-map f xs)

-- Membership with its position kept, by recursion.
module _ {A : Type 0} where
  abbrev pub In : A → List A → Type 0
  In a [] = ⊥
  In a (x ∷ xs) = (a ≡ x) ⊎ In a xs

  abbrev pub All : (A → Type 0) → List A → Type 0
  All P [] = Unit
  All P (x ∷ xs) = P x × All P xs

  -- The earlier of any two elements stands in `R` to the later.
  abbrev pub Pairs : (A → A → Type 0) → List A → Type 0
  Pairs R [] = Unit
  Pairs R (x ∷ xs) = All (R x) xs × Pairs R xs

module _ {A : Type 0} (P : A → Type 0) where
  pub All-In : (xs : List A) {a : A} → All P xs → In a xs → P a
  All-In [] h m = absurd m
  All-In (x ∷ xs) h (inl e) = rw e h.0
  All-In (x ∷ xs) h (inr m) = All-In xs h.1 m

  pub All-append : (xs ys : List A) → All P xs → All P ys → All P (xs ++ ys)
  All-append [] ys h k = k
  All-append (x ∷ xs) ys (p, h) k = (p, All-append xs ys h k)

  pub All-prefix : (xs ys : List A) → All P (xs ++ ys) → All P xs
  All-prefix [] ys h = tt
  All-prefix (x ∷ xs) ys (p, h) = (p, All-prefix xs ys h)

module _ {A : Type 0} {P Q : A → Type 0} (f : (a : A) → P a → Q a) where
  pub All-mono : (xs : List A) → All P xs → All Q xs
  All-mono [] h = tt
  All-mono (x ∷ xs) (p, h) = (f x p, All-mono xs h)

module _ {A : Type 0} (R : A → A → Type 0) where
  pub Pairs-concat :
      (xs : List A) (y : A) → Pairs R xs → All (λ x. R x y) xs → Pairs R (xs ++ y ∷ [])
  Pairs-concat [] y p h = (tt, tt)
  Pairs-concat (x ∷ xs) y (a, p) (r, h) =
      (All-append (R x) xs (y ∷ []) a (r, tt), Pairs-concat xs y p h)

  -- Two elements are one, or one stands in `R` to the other.
  pub Pairs-In :
      (xs : List A) {a b : A} → Pairs R xs → In a xs → In b xs → (a ≡ b) ⊎ (R a b ⊎ R b a)
  Pairs-In [] p m n = absurd m
  Pairs-In (x ∷ xs) p (inl e) (inl f) = inl (e ∙ sym f)
  Pairs-In (x ∷ xs) {b = b} p (inl e) (inr n) = inr (inl (rw e (All-In (R x) xs p.0 n)))
  Pairs-In (x ∷ xs) {a = a} p (inr m) (inl f) = inr (inr (rw f (All-In (R x) xs p.0 m)))
  Pairs-In (x ∷ xs) p (inr m) (inr n) = Pairs-In xs p.1 m n

module _ {A : Type 0} (P : A → Type 0) where
  pub All-suffix : (xs ys : List A) → All P (xs ++ ys) → All P ys
  All-suffix [] ys h = h
  All-suffix (x ∷ xs) ys (p, h) = All-suffix xs ys h

module _ {A : Type 0} (R : A → A → Type 0) where
  pub Pairs-append :
      (xs ys : List A) → Pairs R xs → Pairs R ys → All (λ x. All (R x) ys) xs → Pairs R (xs ++ ys)
  Pairs-append [] ys p q c = q
  Pairs-append (x ∷ xs) ys (a, p) q (b, c) = (All-append (R x) xs ys a b, Pairs-append xs ys p q c)

module _ {A B : Type 0} (R : A → B → Type 0) where
  All-head :
      (xs : List A) (y : B) (ys : List B) → All (λ x. All (R x) (y ∷ ys)) xs → All (λ x. R x y) xs
  All-head [] y ys h = tt
  All-head (x ∷ xs) y ys (p, h) = (p.0, All-head xs y ys h)

  All-rest :
      (xs : List A) (y : B) (ys : List B)
      → All (λ x. All (R x) (y ∷ ys)) xs
      → All (λ x. All (R x) ys) xs
  All-rest [] y ys h = tt
  All-rest (x ∷ xs) y ys (p, h) = (p.1, All-rest xs y ys h)

  pub All-comm :
      (xs : List A) (ys : List B) → All (λ x. All (R x) ys) xs → All (λ y. All (λ x. R x y) xs) ys
  All-comm xs [] h = tt
  All-comm xs (y ∷ ys) h = (All-head xs y ys h, All-comm xs ys (All-rest xs y ys h))
