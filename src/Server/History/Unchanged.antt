-- ===== src/Server/History/Unchanged.antt =====
-- Where Ledger::enroll reports no change it has changed nothing.
use gaze_lens.Prelude.{
  ℕ, ◌≡◌, refl, ap, ◌∙◌, Bool, false, List, [], ◌∷◌, ◌||◌, any, Bool-cases, Result-cases, arith, ok,
  inl, inr,
}
use gaze_lens.Server.History.{
  Identity, Entry, Ledger, enroll_one, enroll_all, retire, retires, enroll,
}
use gaze_lens.Server.History.Round.{Round, kept, first, replaced, Round-enroll_one}
use gaze_lens.Server.History.Preserve.{Enrolled-enroll}

Round-same : (xs : List Entry) (v : Identity) (ys : List Entry) → Round xs v ys false → ys ≡ xs
Round-same xs v ys (kept e m same live eq flag) = eq
Round-same xs v ys (first e room eq flag) = absurd (ground arith)
Round-same xs v ys (replaced i e found at kind live room eq flag) = absurd (ground arith)

enroll_all_flag :
    (xs : List Entry) (requested : List Identity) (flag : Bool) (ys : List Entry)
    → enroll_all xs requested flag ≡ ok (ys, false)
    → (flag ≡ false) × (ys ≡ xs)
unfolding enroll_all
enroll_all_flag xs [] flag ys h = (ground arith, ground arith)
enroll_all_flag xs (v ∷ rest) flag ys h = elim (Result-cases (enroll_one xs v)) [
  | inl (e, bad) ↦ absurd (ground arith)
  | inr ((zs, pushed), done) ↦
      let later : enroll_all zs rest (flag || pushed) ≡ ok (ys, false) = ground arith in
      let (quiet, same) = enroll_all_flag zs rest (flag || pushed) ys later in
      let unpushed : pushed ≡ false = ground arith in
      (ground arith, same ∙ Round-same xs v zs (Round-enroll_one xs v (rw unpushed at done)))
]

retire_none :
    (requested : List Identity) (xs : List Entry)
    → any (retires requested) xs ≡ false
    → retire requested xs ≡ xs
unfolding retire
retire_none requested [] h = refl
retire_none requested (x ∷ xs) h = elim (Bool-cases (retires requested x)) [
  | inl gone ↦ absurd (ground arith)
  | inr here ↦ rw (here, retire_none requested xs (ground arith))
]

pub enroll_unchanged :
    (json_size : Ledger → ℕ) (ledger ledger' : Ledger) (requested : List Identity)
    → enroll json_size ledger requested ≡ ok (ledger', false)
    → ledger' ≡ ledger
enroll_unchanged json_size ledger ledger' requested h =
    let run = Enrolled-enroll json_size ledger requested h in
    let quiet : run.pushed ≡ false = ground (arith, run.flag) in
    let none_left : any (retires requested) run.entries ≡ false = ground (arith, run.flag) in
    let (_, same) =
      enroll_all_flag ledger.entries requested false run.entries (rw quiet at run.rounds) in
    run.result
    ∙ ap (λ es. record ledger { entries = es }) (retire_none requested run.entries none_left ∙ same)
