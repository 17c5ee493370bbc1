-- ===== src/Server/Startup/Opened.antt =====
-- What a server that has started can rely on.
use gaze_lens.Prelude.{
  ℕ, ◌≡◌, refl, ◌↔◌, true, List, [], ◌∷◌, In, Bool-cases, Result-cases, arith, ok, inl, inr,
}
use gaze_lens.Server.Auth.{Authority, check}
use gaze_lens.Server.Auth.Consistent.{check_iff}
use gaze_lens.Server.History.{Identity, Ledger, validate, enroll}
use gaze_lens.Server.History.Preserve.{validate-enroll}
use gaze_lens.Server.History.Active.{IsLive, IsLive-iff_requested}
use gaze_lens.Server.Startup.{
  Fingerprints, Disk, History, identities, read_ledger, open_history, same_identities,
  validate_history,
}
use gaze_lens.Server.Startup.Sorting.{AreDigests, identities_distinct}
use gaze_lens.Server.History.Unchanged.{enroll_unchanged}

same_identities_refl : (vs : List Identity) → same_identities vs vs ≡ true
same_identities_refl [] = refl
same_identities_refl (v ∷ vs) = ground (arith, same_identities_refl vs)

-- The state that a successful open leaves.
pub record IsOpened (f : Fingerprints) (a : Authority) (h : History) : Type 0 where
  pub enrolled : identities f a ≡ ok h.enrolled
  pub valid : validate h.ledger ≡ ok tt
  pub active : (v : Identity) → IsLive h.ledger.entries v ↔ In v h.enrolled
  pub accepted : validate_history f h a ≡ ok tt

-- If fingerprints are digests in hex, the authority is one that Authority::parse accepts, and
-- History::open succeeds with it, then the process holds the identities of the authority, the ledger
-- on disk is valid and its active entries are those identities, and History::validate accepts the
-- same authority from then on.
pub IsOpened-open_history :
    (f : Fingerprints) (json_size : Ledger → ℕ) (disk : Disk) (a : Authority) (h : History)
    → AreDigests f
    → check a ≡ ok a
    → open_history f json_size disk a ≡ ok h
    → IsOpened f a h
unfolding open_history validate_history
IsOpened-open_history f json_size disk a h digests good opened =
    elim (Result-cases (identities f a)) [
      | inl (_, bad) ↦ absurd (ground arith)
      | inr (vs, e) ↦ elim (Result-cases (read_ledger disk)) [
        | inl (_, bad) ↦ absurd (ground arith)
        | inr (ledger, r) ↦ elim (Result-cases (enroll json_size ledger vs)) [
          | inl (_, bad) ↦ absurd (ground arith)
          | inr ((ledger', changed), done) ↦
              let (shapes, apart) = identities_distinct f a digests ((check_iff a).0 good) vs e in
              let written : h.ledger ≡ ledger' = elim (Bool-cases changed) [
                | inl yes_changed ↦ ground arith
                | inr same ↦
                    let is = enroll_unchanged json_size ledger ledger' vs (rw same at done) in
                    ground arith
              ] in
              let held : h.enrolled ≡ vs = ground arith in
              record {
                enrolled = rw held e;
                valid =
                    rw written (validate-enroll json_size ledger ledger' vs changed shapes done);
                active = λ v.
                    rw (written, held)
                      (IsLive-iff_requested json_size ledger ledger' vs changed shapes apart done
                        v);
                accepted = rw (e, held) (ground (arith, same_identities_refl vs));
              }
        ]
      ]
    ]
