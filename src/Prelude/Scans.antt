-- ===== src/Prelude/Scans.antt =====
-- The loop `for (i, x) in xs.iter().enumerate() { check(&xs[..i], x)?; }`, and what it accepts.
use mathlib.Core.Path.{◌≡◌, refl}
use mathlib.Core.Logic.{inl, inr}
use mathlib.Core.List.{List, [], ◌∷◌, ◌++◌}
use native.Mathlib.Omega.{arith}
use gaze_lens.Prelude.Lists.{All, Pairs, All-append, All-mono, All-prefix, All-suffix}
use gaze_lens.Prelude.Results.{Result, ok, ◌>>◌, Result-cases}

module _ {E A : Type 0} where
  unfoldable pub each_after :
      (List A → A → Result E (Unit {0})) → List A → List A → Result E (Unit {0})
  each_after check before [] = ok tt
  each_after check before (x ∷ rest) = do check before x; each_after check (before ++ x ∷ []) rest

-- Each element of `rest` passes alone, after every element of `before`, and after those of `rest`
-- that precede it.
module _ {A : Type 0} (P : A → Type 0) (R : A → A → Type 0) where
  pub record Passes (before rest : List A) : Type 0 where
    pub alone : All P rest
    pub later : All (λ x. All (λ y. R y x) before) rest
    pub apart : Pairs R rest

  All-both :
      (before : List A) (x : A) (rest : List A)
      → All (λ z. All (λ y. R y z) before) rest
      → All (R x) rest
      → All (λ z. All (λ y. R y z) (before ++ x ∷ [])) rest
  All-both before x [] h k = tt
  All-both before x (z ∷ rest) (p, h) (r, k) =
      (All-append (λ y. R y z) before (x ∷ []) p (r, tt), All-both before x rest h k)

  All-unit : (rest : List A) → All (λ x. All (λ y. R y x) []) rest
  All-unit [] = tt
  All-unit (x ∷ rest) = (tt, All-unit rest)

  module _ {E : Type 0} (check : List A → A → Result E (Unit {0})) where
    each_after_sound :
        ((before : List A) (x : A) → check before x ≡ ok tt → P x × All (λ y. R y x) before)
        → (before rest : List A) → each_after check before rest ≡ ok tt
        → Passes before rest
    unfolding each_after
    each_after_sound sound before [] h = record { alone = tt; later = tt; apart = tt }
    each_after_sound sound before (x ∷ rest) h = elim (Result-cases (check before x)) [
      | inl (e, bad) ↦ absurd (ground arith)
      | inr (t, good) ↦
          let (p, r) = sound before x good in
          let ih = each_after_sound sound (before ++ x ∷ []) rest (ground arith) in
          record {
            alone = (p, ih.alone);
            later = (r, All-mono (λ z h. All-prefix (λ y. R y z) before (x ∷ []) h) rest ih.later);
            apart = (
              All-mono (λ z h. (All-suffix (λ y. R y z) before (x ∷ []) h).0) rest ih.later,
              ih.apart,
            );
          }
    ]

    each_after_complete :
        ((before : List A) (x : A) → P x → All (λ y. R y x) before → check before x ≡ ok tt)
        → (before rest : List A) → Passes before rest
        → each_after check before rest ≡ ok tt
    unfolding each_after
    each_after_complete complete before [] a = refl
    each_after_complete complete before (x ∷ rest) a = rw (complete before x a.alone.0 a.later.0) (
        each_after_complete complete (before ++ x ∷ []) rest (record {
          alone = a.alone.1;
          later = All-both before x rest a.later.1 a.apart.0;
          apart = a.apart.1;
        }))

    -- The whole loop, by soundness and completeness of one round.
    pub each_after-eq-ok :
        ((before : List A) (x : A) → check before x ≡ ok tt → P x × All (λ y. R y x) before)
        → (xs : List A) → each_after check [] xs ≡ ok tt
        → All P xs × Pairs R xs
    each_after-eq-ok sound xs h = let a = each_after_sound sound [] xs h in (a.alone, a.apart)

    pub each_after_ok :
        ((before : List A) (x : A) → P x → All (λ y. R y x) before → check before x ≡ ok tt)
        → (xs : List A) → All P xs
        → Pairs R xs
        → each_after check [] xs ≡ ok tt
    each_after_ok complete xs p r =
        each_after_complete complete [] xs (record { alone = p; later = All-unit xs; apart = r })
