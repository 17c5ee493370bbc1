-- ===== src/Prelude/Tests.antt =====
-- Boolean tests, equality of data by an instance, and the conditional.
use Prim.Native.Nat.{ℕ, compare, Ordering}
use mathlib.Core.Path.{◌≡◌, refl}
use mathlib.Core.Logic.{◌⊎◌, inl, inr}
use mathlib.Core.Bool.{Bool, true, false}
use mathlib.Core.List.{List}
use mathlib.Core.Option.{Option, none, some}
use native.Mathlib.Decide.{ℕ_discrete}
use native.Mathlib.Omega.{arith}

abbrev pub ltb : ℕ → ℕ → Bool
ltb a b = elim (compare a b) [ Ordering.lt ↦ true | _ ↦ false ]

abbrev pub leb : ℕ → ℕ → Bool
leb a b = elim (compare a b) [ Ordering.gt ↦ false | _ ↦ true ]

infix 1 if◌then◌else◌
abbrev pub if◌then◌else◌ {ℓ} : {A : Type ℓ} → Bool → A → A → A
if true then x else y = x
if false then x else y = y

-- `PartialEq` of the source, by a decision of equality.
pub record Eq (A : Type 0) : Type 0 where
  pub dec : Discrete A

abbrev pub is_yes : {P : Type 0} → Dec P → Bool
is_yes (yes p) = true
is_yes (no n) = false

infix 50 ◌==◌
abbrev pub ◌==◌ : {A : Type 0} ⦃e : Eq A⦄ → A → A → Bool
◌==◌ ⦃e⦄ a b = is_yes (e.dec a b)

instance abbrev pub ℕ_eq : Eq ℕ
ℕ_eq = record { dec = ℕ_discrete }

unfoldable pub Text-discrete : Discrete (List ℕ)
unfolding ℕ_discrete
Text-discrete = hlevel ℕ_discrete

instance abbrev pub Text-eq : Eq (List ℕ)
Text-eq = record { dec = Text-discrete }

-- What a test by a decision tells.
pub eq_true : {A : Type 0} ⦃e : Eq A⦄ (a b : A) → (a == b) ≡ true → a ≡ b
eq_true ⦃e⦄ a b h = elim (e.dec a b) [ yes p ↦ p | no n ↦ absurd (ground arith) ]

pub is_yes-holds : {P : Type 0} (d : Dec P) → P → is_yes d ≡ false → ⊥
is_yes-holds (yes p) q h = cc
is_yes-holds (no n) q h = n q

pub Bool-cases : (b : Bool) → (b ≡ true) ⊎ (b ≡ false)
Bool-cases true = inl refl
Bool-cases false = inr refl

pub Option-cases {ℓ} : {A : Type ℓ} (o : Option A) → (o ≡ none) ⊎ ((a : A) × (o ≡ some a))
Option-cases none = inl refl
Option-cases (some a) = inr (a, refl)
