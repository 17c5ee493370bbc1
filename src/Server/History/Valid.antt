-- ===== src/Server/History/Valid.antt =====
-- What Ledger::validate accepts, as a property of the entries.
use gaze_lens.Prelude.{
  ◌≤◌, ◌≡◌, ◌≢◌, refl, ◌↔◌, true, false, List, [], ◌∷◌, length, All, Pairs, arith, ok, err, each,
  if◌then◌else◌, Bool-cases, inl, inr, each_after-eq-ok, each_after_ok,
}
use gaze_lens.Protocol.Errors.{Checked, unavailable}
use gaze_lens.Server.History.{Entry, Ledger, clashes, well_shaped, check_entry, validate}

-- What an earlier entry leaves free for a later one: another generation, and under one id the same
-- kind, with the earlier one retired.
pub record IsClear (old new : Entry) : Type 0 where
  pub fresh : old.identity.generation ≢ new.identity.generation
  pub retired :
      old.identity.id ≡ new.identity.id
      → (old.identity.kind ≡ new.identity.kind) × (old.active ≡ false)

abbrev pub IsShaped : Entry → Type 0
IsShaped e = well_shaped e.identity ≡ true

pub record IsValid (ledger : Ledger) : Type 0 where
  pub version : ledger.version ≡ 1
  pub size : length ledger.entries ≤ 1024
  pub shaped : All IsShaped ledger.entries
  pub separate : Pairs IsClear ledger.entries

pub IsClear-clashes : (old e : Entry) → IsClear old e → clashes e.identity old ≡ false
IsClear-clashes old e c = grind arith

pub IsClear-of_clashes : (old e : Entry) → clashes e.identity old ≡ false → IsClear old e
IsClear-of_clashes old e h = record { fresh = ground arith; retired = λ p. ground arith }

abbrev clash_check : Entry → Entry → Checked (Unit {0})
clash_check e old = if clashes e.identity old then err unavailable else ok tt

each_sound :
    (e : Entry) (before : List Entry)
    → each (clash_check e) before ≡ ok tt
    → All (λ old. IsClear old e) before
each_sound e [] h = tt
each_sound e (old ∷ before) h = elim (Bool-cases (clashes e.identity old)) [
  | inl bad ↦ absurd (ground arith)
  | inr clear ↦ (IsClear-of_clashes old e clear, each_sound e before (ground arith))
]

each_complete :
    (e : Entry) (before : List Entry)
    → All (λ old. IsClear old e) before
    → each (clash_check e) before ≡ ok tt
each_complete e [] h = refl
each_complete e (old ∷ before) (c, h) = rw (IsClear-clashes old e c) (each_complete e before h)

check_entry_sound :
    (before : List Entry) (e : Entry)
    → check_entry before e ≡ ok tt
    → IsShaped e × All (λ old. IsClear old e) before
check_entry_sound before e h = (ground arith, each_sound e before (ground arith))

check_entry_complete :
    (before : List Entry) (e : Entry)
    → IsShaped e
    → All (λ old. IsClear old e) before
    → check_entry before e ≡ ok tt
check_entry_complete before e shape h = rw (shape, each_complete e before h)

-- Ledger::validate accepts exactly the ledgers of version 1 with at most 1,024 well-shaped entries,
-- where no two entries share a generation and, of two under one id, both have the same kind and the
-- earlier is retired.
pub validate_iff : (ledger : Ledger) → (validate ledger ≡ ok tt) ↔ IsValid ledger
unfolding validate
validate_iff ledger = (sound, complete)
  where
    sound : validate ledger ≡ ok tt → IsValid ledger
    sound h =
        let (shaped, separate) =
          each_after-eq-ok IsShaped IsClear check_entry check_entry_sound ledger.entries
            (ground arith) in
        record { version = ground arith; size = ground arith; shaped = shaped; separate = separate }

    complete : IsValid ledger → validate ledger ≡ ok tt
    complete v = ground (
      arith,
      v.version,
      v.size,
      each_after_ok IsShaped IsClear check_entry check_entry_complete ledger.entries v.shaped
          v.separate,
    )
