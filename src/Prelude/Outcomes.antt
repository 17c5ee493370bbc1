-- ===== src/Prelude/Outcomes.antt =====
-- Postconditions of fallible code.
use mathlib.Core.Path.{◌≡◌, refl, subst}
use mathlib.Core.Bool.{Bool, true, false}
use gaze_lens.Prelude.Tests.{if◌then◌else◌}
use gaze_lens.Prelude.Results.{Result, ok, err, ◌>>=◌, ◌>>◌}

-- What a success is, if there is one.
pub data Gives {E A : Type 0} (P : A → Type 0) : Result E A → Type 0 where
  gives : {a : A} → P a → Gives P (ok a)
  fails : {e : E} → Gives P (err e)

module _ {E A : Type 0} {P : A → Type 0} where
  pub Gives-of : (r : Result E A) → ((a : A) → r ≡ ok a → P a) → Gives P r
  Gives-of (ok a) h = gives (h a refl)
  Gives-of (err e) h = fails

  pub Gives-ok : {r : Result E A} (a : A) → Gives P r → r ≡ ok a → P a
  Gives-ok a (gives p) is = subst P (cc) p
  Gives-ok a fails is = cc

  pub Gives-if :
      (b : Bool) {x y : Result E A}
      → (b ≡ true → Gives P x)
      → (b ≡ false → Gives P y)
      → Gives P (if b then x else y)
  Gives-if true yes_so no_so = yes_so refl
  Gives-if false yes_so no_so = no_so refl

module _ {E A B : Type 0} {P : A → Type 0} {Q : B → Type 0} where
  pub Gives-bind :
      {m : Result E A} {f : A → Result E B}
      → Gives P m
      → ((a : A) → P a → Gives Q (f a))
      → Gives Q (m >>= f)
  Gives-bind (gives {a} p) later = later a p
  Gives-bind fails later = fails

module _ {E A : Type 0} {Q : A → Type 0} where
  pub Gives-seq :
      (m : Result E (Unit {0})) {k : Result E A} → (m ≡ ok tt → Gives Q k) → Gives Q (m >> k)
  Gives-seq (ok t) later = later refl
  Gives-seq (err e) later = fails

module _ {E A : Type 0} {P Q : A → Type 0} where
  pub Gives-mono : (r : Result E A) → ((a : A) → P a → Q a) → Gives P r → Gives Q r
  Gives-mono (ok a) f (gives p) = gives (f a p)
  Gives-mono (err e) f fails = fails
