-- ===== src/Prelude/Search.antt =====
-- What `any` and `find` answer, by membership.
use mathlib.Core.Path.{◌≡◌, refl}
use mathlib.Core.Logic.{inl, inr}
use mathlib.Core.Bool.{Bool, true, false}
use mathlib.Core.Option.{some}
use mathlib.Core.List.{List, [], ◌∷◌}
use native.Mathlib.Omega.{arith}
use gaze_lens.Prelude.Tests.{Bool-cases}
use gaze_lens.Prelude.Lists.{any, find, In, All}

module _ {A : Type 0} (p : A → Bool) where
  pub In-any : (xs : List A) → any p xs ≡ true → (x : A) × In x xs × (p x ≡ true)
  In-any [] h = absurd (ground arith)
  In-any (x ∷ xs) h = elim (Bool-cases (p x)) [
    | inl e ↦ (x, inl refl, e)
    | inr e ↦ let (y, m, q) = In-any xs (ground arith) in (y, inr m, q)
  ]

  pub any-In : (xs : List A) (x : A) → In x xs → p x ≡ true → any p xs ≡ true
  any-In [] x m e = absurd m
  any-In (y ∷ xs) x (inl q) e = let e' : p y ≡ true = rw (← q) e in ground arith
  any-In (y ∷ xs) x (inr m) e = ground (arith, any-In xs x m e)

  pub any_none : (xs : List A) → any p xs ≡ false → All (λ x. p x ≡ false) xs
  any_none [] h = tt
  any_none (x ∷ xs) h = (ground arith, any_none xs (ground arith))

  pub any_of_none : (xs : List A) → All (λ x. p x ≡ false) xs → any p xs ≡ false
  any_of_none [] h = refl
  any_of_none (x ∷ xs) (e, h) = rw e (any_of_none xs h)

  pub find-In : (xs : List A) {x : A} → find p xs ≡ some x → In x xs × (p x ≡ true)
  find-In [] h = absurd (ground arith)
  find-In (y ∷ xs) {x = x} h = elim (Bool-cases (p y)) [
    | inl e ↦ let same : y ≡ x = ground arith in (inl (ground arith), rw (← same) e)
    | inr e ↦ let (m, q) = find-In xs {x = x} (ground arith) in (inr m, q)
  ]

  -- An element that passes is found, if it is the only one.
  pub find_only :
      (xs : List A) (x : A)
      → In x xs
      → p x ≡ true
      → ((y : A) → In y xs → p y ≡ true → y ≡ x)
      → find p xs ≡ some x
  find_only [] x m e only = absurd m
  find_only (y ∷ xs) x m e only = elim (Bool-cases (p y)) [
    | inl q ↦ let same = only y (inl refl) q in rw q (rw same)
    | inr q ↦ rw q (find_only xs x (later m q) e (λ z k. only z (inr k)))
  ]
    where
      later : In x (y ∷ xs) → p y ≡ false → In x xs
      later (inl same) q = absurd (ground arith)
      later (inr k) q = k
