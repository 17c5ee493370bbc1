-- ===== src/Server/History/Grow.antt =====
-- The history only grows: enrolment removes no entry, rewrites no identity and revives nothing.
use gaze_lens.Prelude.{
  ℕ, zero, suc, ◌≡◌, refl, ◌∙◌, Bool, false, List, [], ◌∷◌, ◌++◌, ◌||◌, arith, ok, Result-cases,
  inl, inr, Bool-cases,
}
use gaze_lens.Server.History.{
  Identity, Entry, Ledger, deactivate, enroll_one, enroll_all, retire, retires, enroll,
}
use gaze_lens.Server.History.Round.{Round, kept, first, replaced, Round-enroll_one}
use gaze_lens.Server.History.Preserve.{Enrolled-enroll}

-- `ys` begins with the identities of `xs` in their order, and what is retired in `xs` is so in `ys`.
abbrev pub Grows : List Entry → List Entry → Type 0
Grows [] ys = Unit
Grows (x ∷ xs) [] = ⊥
Grows (x ∷ xs) (y ∷ ys) =
    (x.identity ≡ y.identity) × (x.active ≡ false → y.active ≡ false) × Grows xs ys

Grows-refl : (xs : List Entry) → Grows xs xs
Grows-refl [] = tt
Grows-refl (x ∷ xs) = (refl, λ h. h, Grows-refl xs)

Grows-trans : (xs ys zs : List Entry) → Grows xs ys → Grows ys zs → Grows xs zs
Grows-trans [] ys zs g h = tt
Grows-trans (x ∷ xs) [] zs g h = absurd g
Grows-trans (x ∷ xs) (y ∷ ys) [] g h = absurd h
Grows-trans (x ∷ xs) (y ∷ ys) (z ∷ zs) (p, f, g) (q, k, h) =
    (p ∙ q, λ r. k (f r), Grows-trans xs ys zs g h)

Grows-append : (xs zs : List Entry) → Grows xs (xs ++ zs)
Grows-append [] zs = tt
Grows-append (x ∷ xs) zs = (refl, λ h. h, Grows-append xs zs)

Grows-deactivate : (i : ℕ) (xs : List Entry) → Grows xs (deactivate i xs)
unfolding deactivate
Grows-deactivate zero [] = tt
Grows-deactivate (suc i) [] = tt
Grows-deactivate zero (x ∷ xs) = (refl, λ h. refl, Grows-refl xs)
Grows-deactivate (suc i) (x ∷ xs) = (refl, λ h. h, Grows-deactivate i xs)

Grows-retire : (requested : List Identity) (xs : List Entry) → Grows xs (retire requested xs)
unfolding retire
Grows-retire requested [] = tt
Grows-retire requested (x ∷ xs) = elim (Bool-cases (retires requested x)) [
  | inl gone ↦ rw gone (refl, λ h. refl, Grows-retire requested xs)
  | inr here ↦ rw here (refl, λ h. h, Grows-retire requested xs)
]

Grows-Round :
    (xs : List Entry) (v : Identity) {ys : List Entry} {pushed : Bool}
    → Round xs v ys pushed
    → Grows xs ys
Grows-Round xs v (kept e m same live eq flag) = rw eq (Grows-refl xs)
Grows-Round xs v (first e room eq flag) = rw eq (Grows-append xs _)
Grows-Round xs v (replaced i e found at kind live room eq flag) =
    rw eq (
      Grows-trans xs (deactivate i xs) _ (Grows-deactivate i xs) (Grows-append (deactivate i xs) _))

Grows-enroll_all :
    (xs : List Entry) (requested : List Identity) (flag : Bool) {ys : List Entry} {changed : Bool}
    → enroll_all xs requested flag ≡ ok (ys, changed)
    → Grows xs ys
unfolding enroll_all
Grows-enroll_all xs [] flag {ys = ys} h = let e : xs ≡ ys = ground arith in rw (← e) (Grows-refl xs)
Grows-enroll_all xs (v ∷ rest) flag {ys = ys} {changed = changed} h =
    elim (Result-cases (enroll_one xs v)) [
      | inl (e, failed) ↦ absurd (ground arith)
      | inr ((zs, pushed), done) ↦
          let later : enroll_all zs rest (flag || pushed) ≡ ok (ys, changed) = ground arith in
          Grows-trans xs zs ys (Grows-Round xs v (Round-enroll_one xs v done))
            (Grows-enroll_all zs rest (flag || pushed) later)
    ]

-- If Ledger::enroll succeeds, the new ledger holds every identity of the old one, in the old order
-- and before any new one, and an entry that was retired is still retired.
pub Grows-enroll :
    (json_size : Ledger → ℕ) (ledger ledger' : Ledger) (requested : List Identity) (changed : Bool)
    → enroll json_size ledger requested ≡ ok (ledger', changed)
    → Grows ledger.entries ledger'.entries
Grows-enroll json_size ledger ledger' requested changed h =
    let run = Enrolled-enroll json_size ledger requested h in
    rw run.result (
      Grows-trans ledger.entries run.entries (retire requested run.entries)
        (Grows-enroll_all ledger.entries requested false run.rounds)
        (Grows-retire requested run.entries))
