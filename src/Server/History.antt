-- ===== src/Server/History.antt =====
-- Durable identity enrolment, crates/gaze-lens-server/src/history.rs. The proofs stand below.
pub mod Valid
mod Deactivate
mod Round
pub mod Preserve
pub mod Grow
pub mod Active
pub mod Again
pub mod Unchanged
mod Tests
use gaze_lens.Prelude.{
  ℕ, zero, suc, ◌+◌, Bool, true, false, not, ◌&&◌, ◌||◌, ◌==◌, Eq, Text-eq, ℕ_eq, Text-discrete,
  if◌then◌else◌, Text, List, [], ◌∷◌, ◌++◌, Option, none, some, length, any, leb, ok, err, ◌>>=◌,
  ◌>>◌, each, each_after, ℕ_discrete,
}
use gaze_lens.Protocol.Errors.{Checked, unavailable, binding_changed, cap_exceeded}
use gaze_lens.Protocol.Bounds.{cap, hex}

pub data Kind : Type 0 where
  principal resource : Kind

pub record Identity : Type 0 where
  pub kind : Kind
  pub id : Text
  pub generation : Text
  pub fingerprint : Text

unfoldable pub Kind-discrete : Discrete Kind
Kind-discrete = hlevel

unfoldable pub Identity-discrete : Discrete Identity
unfolding Text-discrete Kind-discrete
Identity-discrete = hlevel (Text-discrete, Kind-discrete)

instance abbrev pub Kind-eq : Eq Kind
Kind-eq = record { dec = Kind-discrete }

instance abbrev pub Identity-eq : Eq Identity
Identity-eq = record { dec = Identity-discrete }

pub record Entry : Type 0 where
  pub identity : Identity
  pub active : Bool

pub record Ledger : Type 0 where
  pub version : ℕ
  pub entries : List Entry

-- The private constant `FILE_BYTES` of private.rs.
abbrev pub file_bytes : ℕ
file_bytes = 65_536

-- Ledger::validate, the inner loop: `old` stands before `v` in the file.
abbrev pub clashes : Identity → Entry → Bool
clashes v old =
    old.identity.generation == v.generation
    || old.identity.id == v.id && (not (old.identity.kind == v.kind) || old.active)

abbrev pub well_shaped : Identity → Bool
well_shaped v = hex v.id 32 && hex v.generation 32 && hex v.fingerprint 64

-- One round of the outer loop; `before` is `self.entries[..i]`.
abbrev pub check_entry : List Entry → Entry → Checked (Unit {0})
check_entry before e = do
  if well_shaped e.identity then ok tt else err unavailable
  each (λ old. if clashes e.identity old then err unavailable else ok tt) before

unfoldable pub validate : Ledger → Checked (Unit {0})
unfolding each_after ℕ_discrete
validate ledger = do
  if ledger.version == 1 then ok tt else err unavailable
  cap (length ledger.entries) 1024
  each_after check_entry [] ledger.entries

-- `Iterator::rposition`.
unfoldable pub rposition : (Entry → Bool) → List Entry → Option ℕ
rposition p [] = none
rposition p (e ∷ rest) = elim (rposition p rest) [
  | some i ↦ some (suc i)
  | none ↦ if p e then some 0 else none
]

-- `self.entries[index]`
unfoldable pub entry_at : List Entry → ℕ → Option Entry
entry_at [] i = none
entry_at (e ∷ rest) zero = some e
entry_at (e ∷ rest) (suc i) = entry_at rest i

-- `self.entries[index].active = false`
unfoldable pub deactivate : ℕ → List Entry → List Entry
deactivate i [] = []
deactivate zero (e ∷ rest) = record e { active = false } ∷ rest
deactivate (suc i) (e ∷ rest) = e ∷ deactivate i rest

abbrev pub has_id : Text → Entry → Bool
has_id id e = e.identity.id == id

-- What the last entry under an identity's id allows: nothing to do, or a new entry to push.
pub data Plan : Type 0 where
  keep : Plan
  push : Plan

abbrev pub plan_against : Identity → Entry → Checked Plan
plan_against v old =
    if not old.active || not (old.identity.kind == v.kind)
    then err binding_changed
    else if old.identity.generation == v.generation
    then (if old.identity == v then ok keep else err binding_changed)
    else ok push

abbrev pub retire_previous : Option ℕ → List Entry → List Entry
retire_previous none entries = entries
retire_previous (some index) entries = deactivate index entries

-- The rest of the round, once a push is wanted; `previous` is the position of the last entry.
abbrev pub push_entry : Identity → Option ℕ → List Entry → Checked (List Entry)
push_entry v previous entries =
    if any (λ e. e.identity.generation == v.generation) entries then err binding_changed else do
      let retired = retire_previous previous entries
      cap (length retired + 1) 1024
      ok (retired ++ record { identity = v; active = true } ∷ [])

abbrev pub follow : Identity → Option ℕ → List Entry → Plan → Checked (List Entry × Bool)
follow v previous entries keep = ok (entries, false)
follow v previous entries push = do entries' ← push_entry v previous entries; ok (entries', true)

-- One round of the loop of Ledger::enroll; the flag says whether it set `changed`.
unfoldable pub enroll_one : List Entry → Identity → Checked (List Entry × Bool)
enroll_one entries v = elim (rposition (has_id v.id) entries) [
  | none ↦ follow v none entries push
  | some index ↦ elim (entry_at entries index) [
    | none ↦ err binding_changed
    | some old ↦ plan_against v old >>= follow v (some index) entries
  ]
]

unfoldable pub enroll_all : List Entry → List Identity → Bool → Checked (List Entry × Bool)
enroll_all entries [] changed = ok (entries, changed)
enroll_all entries (v ∷ rest) changed = do
  (entries', pushed) ← enroll_one entries v
  enroll_all entries' rest (changed || pushed)

abbrev pub requests : List Identity → Entry → Bool
requests requested e = any (λ v. v.id == e.identity.id) requested

abbrev pub retires : List Identity → Entry → Bool
retires requested e = e.active && not (requests requested e)

-- The last loop: what is active and no longer requested becomes inactive.
unfoldable pub retire : List Identity → List Entry → List Entry
retire requested [] = []
retire requested (e ∷ rest) =
    (if retires requested e then record e { active = false } else e) ∷ retire requested rest

-- The length of the ledger as serde_json writes it.
module _ (json_size : Ledger → ℕ) where
  pub serialized_size : Ledger → ℕ → Checked (Unit {0})
  serialized_size ledger max = if leb (json_size ledger) max then ok tt else err cap_exceeded

  unfoldable pub enroll : Ledger → List Identity → Checked (Ledger × Bool)
  unfolding serialized_size
  enroll ledger requested = do
    validate ledger
    (entries, changed) ← enroll_all ledger.entries requested false
    let enrolled = record ledger { entries = retire requested entries }
    serialized_size enrolled file_bytes
    ok (enrolled, changed || any (retires requested) entries)
