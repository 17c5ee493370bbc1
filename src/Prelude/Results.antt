-- ===== src/Prelude/Results.antt =====
-- Fallible code: `Result`, the `?` operator as a bind, and loops that stop at the first error.
use mathlib.Core.Path.{◌≡◌, refl}
use mathlib.Core.Logic.{◌⊎◌, inl, inr}
use mathlib.Core.Option.{Option, none, some}
use mathlib.Core.List.{List, [], ◌∷◌}
use native.Mathlib.Omega.{arith}
use gaze_lens.Prelude.Lists.{All, Pairs}

pub data Result (E A : Type 0) : Type 0 where
  ok : A → Result E A
  err : E → Result E A

module _ {E A B : Type 0} where
  infixl 5 ◌>>=◌
  abbrev pub ◌>>=◌ : Result E A → (A → Result E B) → Result E B
  ok a >>= f = f a
  err e >>= f = err e

module _ {E B : Type 0} where
  infixl 5 ◌>>◌
  abbrev pub ◌>>◌ : Result E (Unit {0}) → Result E B → Result E B
  m >> k = m >>= λ _. k

module _ {E A : Type 0} where
  abbrev pub ok_or : E → Option A → Result E A
  ok_or e none = err e
  ok_or e (some a) = ok a

  -- `for x in xs { check(x)?; }`
  abbrev pub each : (A → Result E (Unit {0})) → List A → Result E (Unit {0})
  each check [] = ok tt
  each check (x ∷ xs) = do check x; each check xs

  pub ok_is : (a b : A) → (◌≡◌ {A = Result E A} (ok a) (ok b)) → a ≡ b
  ok_is a b h = ground arith

  pub Result-cases : (r : Result E A) → ((e : E) × (r ≡ err e)) ⊎ ((a : A) × (r ≡ ok a))
  Result-cases (ok a) = inr (a, refl)
  Result-cases (err e) = inl (e, refl)

-- What a success of two steps went through.
module _ {E A B : Type 0} where
  pub bind_ok :
      (m : Result E A) (f : A → Result E B) (b : B)
      → (m >>= f) ≡ ok b
      → (a : A) × ((m ≡ ok a) × (f a ≡ ok b))
  bind_ok (ok a) f b h = (a, (refl, h))
  bind_ok (err e) f b h = absurd (ground arith)

module _ {E B : Type 0} where
  pub seq_ok :
      (m : Result E (Unit {0})) (k : Result E B) (b : B)
      → (m >> k) ≡ ok b
      → (m ≡ ok tt) × (k ≡ ok b)
  seq_ok (ok t) k b h = (refl, h)
  seq_ok (err e) k b h = absurd (ground arith)

-- `for x in xs { out.push(f(x)?); }`
module _ {E A B : Type 0} (f : A → Result E B) where
  unfoldable pub collect : List A → Result E (List B)
  collect [] = ok []
  collect (x ∷ xs) = do y ← f x; ys ← collect xs; ok (y ∷ ys)

  -- What a success on a list that is not empty went through.
  pub record Collected (x : A) (xs : List A) (out : List B) : Type 0 where
    pub first : B
    pub later : List B
    pub head : f x ≡ ok first
    pub tail : collect xs ≡ ok later
    pub is : out ≡ first ∷ later

  pub Collected-collect :
      (x : A) (xs : List A) (out : List B) → collect (x ∷ xs) ≡ ok out → Collected x xs out
  unfolding collect
  Collected-collect x xs out h = elim (Result-cases (f x)) [
    | inl (_, bad) ↦ absurd (ground arith)
    | inr (y, good) ↦ elim (Result-cases (collect xs)) [
      | inl (_, bad) ↦ absurd (ground arith)
      | inr (ys, rest) ↦ record {
        first = y;
        later = ys;
        head = good;
        tail = rest;
        is = ground arith;
      }
    ]
  ]

  pub collect_nil : (out : List B) → collect [] ≡ ok out → out ≡ []
  unfolding collect
  collect_nil out h = ground arith

  module _ (Q : A → Type 0) (P : B → Type 0)
      (keeps : (a : A) (b : B) → f a ≡ ok b → Q a → P b) where
    pub All-collect : (xs : List A) (out : List B) → collect xs ≡ ok out → All Q xs → All P out
    All-collect [] out h q = rw (collect_nil out h) tt
    All-collect (x ∷ xs) out h (q, qs) =
        let c = Collected-collect x xs out h in
        rw c.is (keeps x c.first c.head q, All-collect xs c.later c.tail qs)

  module _ (R : A → A → Type 0) (S : B → B → Type 0)
      (keeps : (a b : A) (v w : B) → f a ≡ ok v → f b ≡ ok w → R a b → S v w) where
    pub Pairs-collect :
        (xs : List A) (out : List B) → collect xs ≡ ok out → Pairs R xs → Pairs S out
    Pairs-collect [] out h q = rw (collect_nil out h) tt
    Pairs-collect (x ∷ xs) out h (q, qs) =
        let c = Collected-collect x xs out h in
        rw c.is (
          All-collect (R x) (S c.first) (λ a b g r. keeps x a c.first b c.head g r) xs c.later
              c.tail q,
          Pairs-collect xs c.later c.tail qs,
        )
