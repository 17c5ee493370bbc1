-- ===== src/Retention/Sweep/Audit.antt =====
-- What a sweep leaves of the table of calls.
use gaze_lens.Prelude.{
  ℕ, ◌≡◌, ◌⊎◌, refl, sym, ap, true, ◌==◌, Text-eq, Bool-cases, Option-cases, Result-cases, Text,
  List, [], ◌∷◌, Option, none, some, In, arith, inl, inr,
}
use gaze_lens.Retention.{AutoPurge, off, warn, purge}
use gaze_lens.Retention.Sweep.{
  Row, ExpiredEntry, SweepReport, empty_report, Removal, removed, not_found, refused, World,
  tombstone, mark_purged, purge_entry, sweep_entry, sweep_rows, sweep,
}
use gaze_lens.Retention.Sweep.Expired.{IsExpired, IsFound, candidate_entry, candidate_entry-IsFound}

-- Rows of one table and another, place by place.
module _ (R : Row → Row → Type 0) where
  abbrev pub Aligned : List Row → List Row → Type 0
  Aligned [] [] = Unit
  Aligned [] (s ∷ ss) = ⊥
  Aligned (r ∷ rs) [] = ⊥
  Aligned (r ∷ rs) (s ∷ ss) = R r s × Aligned rs ss

abbrev pub buried : Row → ℕ → Row
buried r at = record r { snapshot_ref = none; purged_at_ms = some at }

module _ (mode : AutoPurge) (w : World) (now_ms days : ℕ) (table : List Row) where
  -- What a mark on a call needs: the mode purge, an expired row of the call whose file is gone, and an
  -- UPDATE that is taken.
  pub record IsDue (id : Text) (at : ℕ) : Type 0 where
    pub purges : mode ≡ purge
    pub row : Row
    pub in_table : In row table
    pub expired : IsExpired w now_ms days row
    pub same : row.call_id ≡ id
    pub gone : (w.remove_file expired.path ≡ removed) ⊎ (w.remove_file expired.path ≡ not_found)
    pub taken : w.takes_update id ≡ true
    pub then_at : at ≡ w.clock id

  -- A row is as it was, or it has been marked as purged and is due.
  abbrev pub Keeps : Row → Row → Type 0
  Keeps r s = (s ≡ r) ⊎ ((at : ℕ) × ((s ≡ buried r at) × IsDue r.call_id at))

  Aligned-refl : (rows : List Row) → Aligned Keeps rows rows
  Aligned-refl [] = tt
  Aligned-refl (r ∷ rows) = (inl refl, Aligned-refl rows)

  Keeps-buried :
      (r s : Row) (id : Text) (at : ℕ)
      → IsDue id at
      → (s.call_id == id) ≡ true
      → Keeps r s
      → Keeps r (buried s at)
  Keeps-buried r s id at due same (inl e) =
      let name : id ≡ r.call_id = ground arith in
      inr (at, (ap (λ x. buried x at) e, rw (← name) due))
  Keeps-buried r s id at due same (inr (old, (e, d))) =
      let name : id ≡ r.call_id = ground arith in
      inr (at, (ap (λ x. buried x at) e, rw (← name) due))

  Aligned-tombstone :
      (id : Text) (at : ℕ)
      → IsDue id at
      → (rows now : List Row) → Aligned Keeps rows now
      → Aligned Keeps rows (tombstone id at now)
  unfolding tombstone
  Aligned-tombstone id at due [] [] h = tt
  Aligned-tombstone id at due [] (s ∷ ss) h = absurd h
  Aligned-tombstone id at due (r ∷ rs) [] h = absurd h
  Aligned-tombstone id at due (r ∷ rs) (s ∷ ss) (k, h) = elim (Bool-cases (s.call_id == id)) [
    | inl same ↦ rw same (Keeps-buried r s id at due same k, Aligned-tombstone id at due rs ss h)
    | inr other ↦ rw other (k, Aligned-tombstone id at due rs ss h)
  ]

  Aligned-mark :
      (e : ExpiredEntry) (rows now : List Row) (report : SweepReport)
      → (w.takes_update e.call_id ≡ true → IsDue e.call_id (w.clock e.call_id))
      → Aligned Keeps rows now
      → Aligned Keeps rows (mark_purged w e now report).rows
  Aligned-mark e rows now report due h = elim (Bool-cases (w.takes_update e.call_id)) [
    | inl yes_taken ↦
        rw yes_taken (Aligned-tombstone e.call_id (w.clock e.call_id) (due yes_taken) rows now h)
    | inr not_taken ↦ rw not_taken h
  ]

  IsDue-found :
      (r : Row) (e : ExpiredEntry)
      → mode ≡ purge
      → In r table
      → IsFound w now_ms days r e
      → (w.remove_file e.snapshot_path ≡ removed) ⊎ (w.remove_file e.snapshot_path ≡ not_found)
      → w.takes_update e.call_id ≡ true
      → IsDue e.call_id (w.clock e.call_id)
  IsDue-found r e purges inside found gone taken = record {
    purges = purges;
    row = r;
    in_table = inside;
    expired = found.expired;
    same = sym found.same;
    gone = rw (← found.at_path) gone;
    taken = taken;
    then_at = refl;
  }

  Aligned-purge_entry :
      (r : Row) (e : ExpiredEntry) (rows now : List Row) (report : SweepReport)
      → mode ≡ purge
      → In r table
      → IsFound w now_ms days r e
      → Aligned Keeps rows now
      → (a : Removal) → w.remove_file e.snapshot_path ≡ a
      → Aligned Keeps rows (purge_entry w e now report).rows
  unfolding purge_entry
  Aligned-purge_entry r e rows now report purges inside found h removed eq =
      rw (purge_entry, eq)
        (Aligned-mark e rows now report (IsDue-found r e purges inside found (inl eq)) h)
  Aligned-purge_entry r e rows now report purges inside found h not_found eq =
      rw (purge_entry, eq)
        (Aligned-mark e rows now report (IsDue-found r e purges inside found (inr eq)) h)
  Aligned-purge_entry r e rows now report purges inside found h (refused d) eq =
      rw (purge_entry, eq) h

  Aligned-sweep_entry :
      (m : AutoPurge) (r : Row) (e : ExpiredEntry) (rows now : List Row) (report : SweepReport)
      → mode ≡ m
      → In r table
      → IsFound w now_ms days r e
      → Aligned Keeps rows now
      → Aligned Keeps rows (sweep_entry m w e now report).rows
  unfolding sweep_entry
  Aligned-sweep_entry off r e rows now report is inside found h = h
  Aligned-sweep_entry warn r e rows now report is inside found h = h
  Aligned-sweep_entry purge r e rows now report is inside found h =
      Aligned-purge_entry r e rows now report is inside found h (w.remove_file e.snapshot_path) refl

  Aligned-sweep_rows :
      (rest rows now : List Row) (report : SweepReport)
      → ((c : Row) → In c rest → In c table)
      → Aligned Keeps rows now
      → Aligned Keeps rows (sweep_rows mode w now_ms days rest now report).rows
  unfolding sweep_rows
  Aligned-sweep_rows [] rows now report inside h = h
  Aligned-sweep_rows (r ∷ rest) rows now report inside h =
      elim (Option-cases (candidate_entry w now_ms days r)) [
        | inl skip ↦
            rw (sweep_rows, skip)
              (Aligned-sweep_rows rest rows now report (λ c m. inside c (inr m)) h)
        | inr (e, found) ↦
            let one =
              Aligned-sweep_entry mode r e rows now report refl (inside r (inl refl))
                (candidate_entry-IsFound w now_ms days r e found) h in
            elim (Result-cases (sweep_entry mode w e now report).outcome) [
              | inl (x, stop) ↦ rw (sweep_rows, found, stop) one
              | inr (next, go) ↦
                  rw (sweep_rows, found, go)
                    (Aligned-sweep_rows rest rows (sweep_entry mode w e now report).rows next
                      (λ c m. inside c (inr m)) one)
            ]
      ]

-- Whatever the mode, the file system and the clock, a sweep of a table of calls drops no row and
-- moves none: each row is as it was, or the mode is purge and it is marked as purged at the time of
-- its call, with nothing else in it changed. A marked row's call id is that of a row of status ok
-- that had a snapshot, was not purged before and whose session began more than the days of the
-- retention ago; the snapshot's file was removed or not found, and the UPDATE was taken.
pub Aligned-sweep :
    (mode : AutoPurge) (w : World) (now_ms days : ℕ) (last : Option ℕ) (rows : List Row)
    → Aligned (Keeps mode w now_ms days rows) rows (sweep mode w now_ms days last (some rows)).rows
unfolding sweep
Aligned-sweep off w now_ms days last rows = Aligned-refl off w now_ms days rows rows
Aligned-sweep warn w now_ms days last rows =
    Aligned-sweep_rows warn w now_ms days rows rows rows rows empty_report (λ c m. m)
      (Aligned-refl warn w now_ms days rows rows)
Aligned-sweep purge w now_ms days last rows =
    Aligned-sweep_rows purge w now_ms days rows rows rows rows empty_report (λ c m. m)
      (Aligned-refl purge w now_ms days rows rows)
