-- ===== src/Protocol/Checks.antt =====
-- What a chain of elementary checks accepts, check by check.
use gaze_lens.Prelude.{
  ℕ, ◌≤◌, ◌≡◌, refl, ◌↔◌, Bool, true, false, not, Text, List, [], ◌∷◌, length, is_empty, All, each,
  ok, err, ◌>>◌, arith,
}
use gaze_lens.Protocol.Errors.{Checked}
use gaze_lens.Protocol.Bounds.{require, cap, identifier, identifier_bytes}

abbrev pub Accepts : Checked (Unit {0}) → Type 0 → Type 0
Accepts m P = (m ≡ ok tt) ↔ P

pub require_iff : (b : Bool) → Accepts (require b) (b ≡ true)
require_iff true = ((λ h. refl), λ h. refl)
require_iff false = ((λ h. absurd (ground arith)), λ h. absurd (ground arith))

pub cap_iff : (size max : ℕ) → Accepts (cap size max) (size ≤ max)
cap_iff size max = ((λ h. ground arith), λ h. ground arith)

pub both_iff :
    {P Q : Type 0} (m k : Checked (Unit {0})) → Accepts m P → Accepts k Q → Accepts (m >> k) (P × Q)
both_iff (ok t) k (f, g) (f', g') = ((λ h. (f refl, f' h)), λ h. g' h.1)
both_iff (err e) k (f, g) k' =
    ((λ h. absurd (ground arith)), λ h. absurd (let bad = g h.0 in ground arith))

pub each_iff :
    {A : Type 0} {P : A → Type 0} (f : A → Checked (Unit {0}))
    → ((a : A) → Accepts (f a) (P a))
    → (xs : List A) → Accepts (each f xs) (All P xs)
each_iff f p [] = ((λ h. tt), λ h. refl)
each_iff f p (x ∷ xs) = both_iff (f x) (each f xs) (p x) (each_iff f p xs)

abbrev pub IsIdentifier : Text → Type 0
IsIdentifier name = (not (is_empty name) ≡ true) × (length name ≤ identifier_bytes)

pub identifier_iff : (name : Text) → Accepts (identifier name) (IsIdentifier name)
identifier_iff name =
    both_iff (require (not (is_empty name))) (cap (length name) identifier_bytes)
      (require_iff (not (is_empty name))) (cap_iff (length name) identifier_bytes)
