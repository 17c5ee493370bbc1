-- ===== src/Server/Startup.antt =====
-- The identities of an authority file (Authority::identities of auth.rs), and what History::open,
-- History::check and History::validate of history.rs do with them.
pub mod Sorting
pub mod Opened
mod Tests
use gaze_lens.Prelude.{
  ℕ, Bool, true, false, ◌&&◌, text_ltb, collect, if◌then◌else◌, Text, List, [], ◌∷◌, ◌++◌, ok, err,
  ◌>>=◌, ◌>>◌, is_yes,
}
use gaze_lens.Protocol.Errors.{Checked, binding_changed}
use gaze_lens.Server.Auth.{Principal, Resource, Authority}
use gaze_lens.Server.History.{
  Identity, Ledger, principal, resource, validate, enroll, Identity-discrete,
}

-- What `fingerprint` is: the digest of the entry as serde_json writes it, or a failure to write it.
pub record Fingerprints : Type 0 where
  pub of_principal : Principal → Checked Text
  pub of_resource : Resource → Checked Text

abbrev pub principal_identity : Fingerprints → Principal → Checked Identity
principal_identity f p = do
  fingerprint ← f.of_principal p
  ok (record { kind = principal; id = p.id; generation = p.generation; fingerprint = fingerprint })

abbrev pub resource_identity : Fingerprints → Resource → Checked Identity
resource_identity f r = do
  fingerprint ← f.of_resource r
  ok (record { kind = resource; id = r.id; generation = r.generation; fingerprint = fingerprint })

-- `sort_by(|a, b| a.id.cmp(&b.id))`, which is stable.
unfoldable pub insert : Identity → List Identity → List Identity
unfolding text_ltb
insert v [] = v ∷ []
insert v (w ∷ rest) = if text_ltb w.id v.id then w ∷ insert v rest else v ∷ w ∷ rest

unfoldable pub sort_by_id : List Identity → List Identity
unfolding insert
sort_by_id [] = []
sort_by_id (v ∷ rest) = insert v (sort_by_id rest)

unfoldable pub identities : Fingerprints → Authority → Checked (List Identity)
unfolding collect sort_by_id
identities f a = do
  principals ← collect (principal_identity f) a.principals
  resources ← collect (resource_identity f) a.resources
  ok (sort_by_id (principals ++ resources))

-- The disk: the ledger as serde_json reads it from the file, and the outcome of `persist`.
pub record Disk : Type 0 where
  pub parsed : Checked Ledger
  pub persist : Ledger → Checked (Unit {0})

-- `read`
unfoldable pub read_ledger : Disk → Checked Ledger
read_ledger disk = do ledger ← disk.parsed; validate ledger; ok ledger

-- The state that is left: the ledger on disk, and the identities that the process holds.
pub record History : Type 0 where
  pub ledger : Ledger
  pub enrolled : List Identity

module _ (f : Fingerprints) (json_size : Ledger → ℕ) where
  -- History::open, behind its lock.
  unfoldable pub open_history : Disk → Authority → Checked History
  unfolding identities enroll read_ledger
  open_history disk a = do
    enrolled ← identities f a
    ledger ← read_ledger disk
    (ledger', changed) ← enroll json_size ledger enrolled
    if changed then disk.persist ledger' else ok tt
    ok (record { ledger = if changed then ledger' else ledger; enrolled = enrolled })

  -- History::check, which changes nothing.
  unfoldable pub check_history : Disk → Authority → Checked (Unit {0})
  unfolding identities enroll read_ledger
  check_history disk a = do
    ledger ← read_ledger disk
    enrolled ← identities f a
    (ledger', changed) ← enroll json_size ledger enrolled
    ok tt

-- `self.enrolled == authority.identities()?`
abbrev pub same_identities : List Identity → List Identity → Bool
same_identities [] [] = true
same_identities [] (w ∷ ws) = false
same_identities (v ∷ vs) [] = false
same_identities (v ∷ vs) (w ∷ ws) = is_yes (Identity-discrete v w) && same_identities vs ws

-- History::validate
unfoldable pub validate_history : Fingerprints → History → Authority → Checked (Unit {0})
unfolding identities Identity-discrete
validate_history f history a = do
  now ← identities f a
  if same_identities history.enrolled now then ok tt else err binding_changed
