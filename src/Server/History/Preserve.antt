-- ===== src/Server/History/Preserve.antt =====
-- Ledger::enroll keeps the history well formed.
use gaze_lens.Prelude.{
  ℕ, ◌≤◌, ◌≡◌, refl, Bool, true, false, List, [], ◌∷◌, ◌++◌, ◌||◌, length, All, Pairs, All-mono,
  All-append, Pairs-concat, length-append, arith, ok, Result-cases, inl, inr, any, Bool-cases,
}
use gaze_lens.Server.History.{
  Identity, Entry, Ledger, deactivate, enroll_one, enroll_all, retire, retires, enroll, well_shaped,
  validate, file_bytes,
}
use gaze_lens.Server.History.Valid.{IsClear, IsShaped, IsValid, validate_iff}
use gaze_lens.Server.History.Deactivate.{
  retired_entry, rposition-none, All-deactivate, IsClear-retired_old, IsClear-retired_new,
  Pairs-deactivate, length-deactivate, All-IsRetired, IsRetired,
}
use gaze_lens.Server.History.Round.{
  new_entry, HasRoom, Round, kept, first, replaced, Round-enroll_one,
}

-- IsValid, as far as the entries go.
pub record IsSound (xs : List Entry) : Type 0 where
  pub size : length xs ≤ 1024
  pub shaped : All IsShaped xs
  pub separate : Pairs IsClear xs

-- An entry that is fresh and retired where it shares the id is clear of the new entry.
All-IsClear :
    (v : Identity) (xs : List Entry)
    → All (λ e. ¬ (e.identity.generation ≡ v.generation)) xs
    → All (IsRetired v.id v.kind) xs
    → All (λ e. IsClear e (new_entry v)) xs
All-IsClear v [] h k = tt
All-IsClear v (x ∷ xs) (f, h) (r, k) = (record { fresh = f; retired = r }, All-IsClear v xs h k)

append-IsSound :
    (v : Identity) (xs : List Entry)
    → well_shaped v ≡ true
    → HasRoom v xs
    → All (IsRetired v.id v.kind) xs
    → IsSound xs
    → IsSound (xs ++ new_entry v ∷ [])
append-IsSound v xs shape room retired s = record {
  size = omega (arith, length-append xs (new_entry v ∷ []), room.room);
  shaped = All-append IsShaped xs (new_entry v ∷ []) s.shaped (shape, tt);
  separate = Pairs-concat IsClear xs (new_entry v) s.separate (All-IsClear v xs room.fresh retired);
}

deactivate-IsSound : (i : ℕ) (xs : List Entry) → IsSound xs → IsSound (deactivate i xs)
deactivate-IsSound i xs s = record {
  size = omega (arith, length-deactivate i xs, s.size);
  shaped = All-deactivate IsShaped (λ e h. h) i xs s.shaped;
  separate = Pairs-deactivate i xs s.separate;
}

deactivate_room :
    (v : Identity) (i : ℕ) (xs : List Entry) → HasRoom v xs → HasRoom v (deactivate i xs)
deactivate_room v i xs r = record {
  fresh = All-deactivate (λ e. ¬ (e.identity.generation ≡ v.generation)) (λ e h. h) i xs r.fresh;
  room = omega (arith, length-deactivate i xs, r.room);
}

Round-IsSound :
    (xs : List Entry) (v : Identity) {ys : List Entry} {pushed : Bool}
    → well_shaped v ≡ true
    → IsSound xs
    → Round xs v ys pushed
    → IsSound ys
Round-IsSound xs v shape s (kept e m same live eq flag) = rw eq s
Round-IsSound xs v shape s (first e room eq flag) = rw eq (
    append-IsSound v xs shape room
      (All-mono (λ x n. λ p. absurd (n p)) xs (rposition-none v.id xs e)) s)
Round-IsSound xs v shape s (replaced i e found at kind live room eq flag) = rw eq (
    append-IsSound v (deactivate i xs) shape (deactivate_room v i xs room)
      (All-IsRetired v.id v.kind xs i e s.separate found at kind) (deactivate-IsSound i xs s))

abbrev pub AreShaped : List Identity → Type 0
AreShaped = All (λ v. well_shaped v ≡ true)

pub enroll_all-IsSound :
    (xs : List Entry) (requested : List Identity) (flag : Bool) {ys : List Entry} {changed : Bool}
    → AreShaped requested
    → IsSound xs
    → enroll_all xs requested flag ≡ ok (ys, changed)
    → IsSound ys
unfolding enroll_all
enroll_all-IsSound xs [] flag {ys = ys} shapes s h = let e : xs ≡ ys = ground arith in rw (← e) s
enroll_all-IsSound xs (v ∷ rest) flag {ys = ys} {changed = changed} (shape, shapes) s h =
    elim (Result-cases (enroll_one xs v)) [
      | inl (e, failed) ↦ absurd (ground arith)
      | inr ((zs, pushed), done) ↦
          let later : enroll_all zs rest (flag || pushed) ≡ ok (ys, changed) = ground arith in
          enroll_all-IsSound zs rest (flag || pushed) shapes
            (Round-IsSound xs v shape s (Round-enroll_one xs v done)) later
    ]

All-retire :
    (P : Entry → Type 0) (stays : (e : Entry) → P e → P (retired_entry e))
    (requested : List Identity) (xs : List Entry)
    → All P xs
    → All P (retire requested xs)
unfolding retire
All-retire P stays requested [] h = tt
All-retire P stays requested (x ∷ xs) (p, h) = elim (Bool-cases (retires requested x)) [
  | inl gone ↦ rw gone (stays x p, All-retire P stays requested xs h)
  | inr here ↦ rw here (p, All-retire P stays requested xs h)
]

Pairs-retire :
    (requested : List Identity) (xs : List Entry)
    → Pairs IsClear xs
    → Pairs IsClear (retire requested xs)
unfolding retire
Pairs-retire requested [] h = tt
Pairs-retire requested (x ∷ xs) (p, h) =
    let later = All-retire (IsClear x) (IsClear-retired_new x) requested xs p in
    elim (Bool-cases (retires requested x)) [
      | inl gone ↦ rw gone (
        All-mono (IsClear-retired_old x) (retire requested xs) later,
        Pairs-retire requested xs h,
      )
      | inr here ↦ rw here (later, Pairs-retire requested xs h)
    ]

length-retire :
    (requested : List Identity) (xs : List Entry) → length (retire requested xs) ≡ length xs
unfolding retire
length-retire requested [] = refl
length-retire requested (x ∷ xs) = omega (arith, length-retire requested xs)

pub retire-IsSound :
    (requested : List Identity) (xs : List Entry) → IsSound xs → IsSound (retire requested xs)
retire-IsSound requested xs s = record {
  size = omega (arith, length-retire requested xs, s.size);
  shaped = All-retire IsShaped (λ e h. h) requested xs s.shaped;
  separate = Pairs-retire requested xs s.separate;
}

-- What a success of Ledger::enroll went through.
pub record Enrolled (json_size : Ledger → ℕ) (ledger ledger' : Ledger) (requested : List Identity)
    (changed : Bool) : Type 0 where
  pub entries : List Entry
  pub pushed : Bool
  pub valid : IsValid ledger
  pub rounds : enroll_all ledger.entries requested false ≡ ok (entries, pushed)
  pub result : ledger' ≡ record ledger { entries = retire requested entries }
  pub flag : changed ≡ (pushed || any (retires requested) entries)
  pub fits : json_size ledger' ≤ file_bytes

module _ (json_size : Ledger → ℕ) (ledger : Ledger) {ledger' : Ledger} (requested : List Identity)
    {changed : Bool} (success : enroll json_size ledger requested ≡ ok (ledger', changed)) where
  pub Enrolled-enroll : Enrolled json_size ledger ledger' requested changed
  unfolding enroll
  Enrolled-enroll = elim (Result-cases (validate ledger)) [
    | inl (e, bad) ↦ absurd (ground arith)
    | inr (t, good) ↦ elim (Result-cases (enroll_all ledger.entries requested false)) [
      | inl (e, bad) ↦ absurd (ground arith)
      | inr ((ys, flag), done) ↦ record {
        entries = ys;
        pushed = flag;
        valid = (validate_iff ledger).0 good;
        rounds = done;
        result = ground arith;
        flag = ground arith;
        fits = ground arith;
      }
    ]
  ]

-- If Ledger::enroll succeeds for well-shaped identities, the ledger that it leaves is again one that
-- Ledger::validate accepts, whatever the ledger and the serialized sizes.
pub validate-enroll :
    (json_size : Ledger → ℕ) (ledger ledger' : Ledger) (requested : List Identity) (changed : Bool)
    → AreShaped requested
    → enroll json_size ledger requested ≡ ok (ledger', changed)
    → validate ledger' ≡ ok tt
validate-enroll json_size ledger ledger' requested changed shapes h =
    let run = Enrolled-enroll json_size ledger requested h in
    let v = run.valid in
    let s = retire-IsSound requested run.entries (
      enroll_all-IsSound ledger.entries requested false shapes
        (record { size = v.size; shaped = v.shaped; separate = v.separate }) run.rounds) in
    rw run.result (
      (validate_iff _).1
        (record { version = v.version; size = s.size; shaped = s.shaped; separate = s.separate }))
