-- ===== src/Retention/Sweep.antt =====
-- ManifestMaintenance::sweep_expired_snapshots, src/session/maintenance.rs, on the table `calls`. The
-- file system, the clock and the ULID decoder are given to the model, and whether SQLite takes each
-- UPDATE. Milliseconds count from the epoch; 2^32 days of them stay below 2^63, so that nothing
-- saturates, and an age below zero is no greater than a retention, as is 0. `call_id` is the table's
-- primary key, so an UPDATE takes no later row out of what the SELECT gives.
pub mod Expired
pub mod Audit
pub mod Cleared
mod Tests
use gaze_lens.Prelude.{
  ℕ, ◌+◌, ◌-◌, ◌*◌, ◌/◌, ◌%◌, Bool, true, false, not, ◌&&◌, ◌==◌, Text-eq, Text-discrete, leb, ltb,
  if◌then◌else◌, Text, codes, List, [], ◌∷◌, ◌++◌, map, Option, none, some, is_empty, Result, ok,
  err,
}
use gaze_lens.Retention.{AutoPurge, off, warn, purge}

-- The columns of `calls` that the sweep reads or writes.
pub record Row : Type 0 where
  pub call_id : Text
  pub lens_session_id : Text
  pub status : Text
  pub snapshot_ref : Option Text
  pub purged_at_ms : Option ℕ

pub record ExpiredEntry : Type 0 where
  pub call_id : Text
  pub lens_session_id : Text
  pub snapshot_path : Text
  pub ulid_ms : ℕ
  pub age_days : ℕ

pub record PurgedEntry : Type 0 where
  pub call_id : Text
  pub lens_session_id : Text
  pub snapshot_path : Text
  pub purged_at_ms : ℕ

pub record FailedEntry : Type 0 where
  pub call_id : Text
  pub lens_session_id : Text
  pub snapshot_path : Text
  pub detail : Text

pub record SweepReport : Type 0 where
  pub would_purge : List ExpiredEntry
  pub purged : List PurgedEntry
  pub failed : List FailedEntry
  pub warning_emitted : Bool

abbrev pub empty_report : SweepReport
empty_report = record { would_purge = []; purged = []; failed = []; warning_emitted = false }

-- What std::fs::remove_file answers.
pub data Removal : Type 0 where
  removed not_found : Removal
  refused : (detail : Text) → Removal

-- The world of a sweep: `clock` answers when a call's snapshot was purged.
pub record World : Type 0 where
  pub ulid_ms : Text → Option ℕ
  pub remove_file : Text → Removal
  pub clock : Text → ℕ
  pub takes_update : Text → Bool

abbrev pub ms_per_day : ℕ
ms_per_day = 86_400_000

abbrev pub warn_suppression_ms : ℕ
warn_suppression_ms = 24 * 3_600_000

-- The WHERE clause of the SELECT.
unfoldable pub is_candidate : Row → Bool
unfolding Text-discrete
is_candidate r =
    r.status == codes "ok"
    && elim r.snapshot_ref [ none ↦ false | some p ↦ true ]
    && elim r.purged_at_ms [ none ↦ true | some t ↦ false ]

unfoldable pub expired_entry : World → ℕ → ℕ → Row → Option ExpiredEntry
expired_entry w now_ms retention_days r = elim r.snapshot_ref [
  | none ↦ none
  | some path ↦ elim (w.ulid_ms r.lens_session_id) [
    | none ↦ none
    | some ms ↦
        if leb (now_ms - ms) (retention_days * ms_per_day)
        then none
        else some (record {
          call_id = r.call_id;
          lens_session_id = r.lens_session_id;
          snapshot_path = path;
          ulid_ms = ms;
          age_days = (now_ms - ms) / ms_per_day % 4_294_967_296;
        })
  ]
]

-- UPDATE calls SET purged_at_ms = ?2, snapshot_ref = NULL WHERE call_id = ?1
unfoldable pub tombstone : Text → ℕ → List Row → List Row
unfolding Text-discrete
tombstone id at [] = []
tombstone id at (r ∷ rest) =
    (if r.call_id == id then record r { snapshot_ref = none; purged_at_ms = some at } else r)
    ∷ tombstone id at rest

-- The table that a stage leaves, and what it answers.
pub record Swept : Type 0 where
  pub rows : List Row
  pub outcome : Result Text SweepReport

abbrev pub failing : ExpiredEntry → Text → FailedEntry
failing e detail = record {
  call_id = e.call_id;
  lens_session_id = e.lens_session_id;
  snapshot_path = e.snapshot_path;
  detail = detail;
}

abbrev pub purging : ExpiredEntry → ℕ → PurgedEntry
purging e at = record {
  call_id = e.call_id;
  lens_session_id = e.lens_session_id;
  snapshot_path = e.snapshot_path;
  purged_at_ms = at;
}

-- The UPDATE of one entry, after its file is gone.
abbrev pub mark_purged : World → ExpiredEntry → List Row → SweepReport → Swept
mark_purged w e rows report =
    if w.takes_update e.call_id
    then record {
      rows = tombstone e.call_id (w.clock e.call_id) rows;
      outcome = ok (record report { purged = report.purged ++ purging e (w.clock e.call_id) ∷ [] });
    }
    else record { rows = rows; outcome = err e.call_id }

unfoldable pub purge_entry : World → ExpiredEntry → List Row → SweepReport → Swept
unfolding tombstone
purge_entry w e rows report = elim (w.remove_file e.snapshot_path) [
  | removed ↦ mark_purged w e rows report
  | not_found ↦ mark_purged w e rows report
  | refused detail ↦ record {
    rows = rows;
    outcome = ok (record report { failed = report.failed ++ failing e detail ∷ [] });
  }
]

-- One round of the loop over an expired entry; off does not reach it.
unfoldable pub sweep_entry : AutoPurge → World → ExpiredEntry → List Row → SweepReport → Swept
unfolding purge_entry
sweep_entry purge w e rows report = purge_entry w e rows report
sweep_entry _ w e rows report = record {
  rows = rows;
  outcome = ok (record report { would_purge = report.would_purge ++ e ∷ [] });
}

-- The loop over the rows that the SELECT gave.
unfoldable pub sweep_rows : AutoPurge → World → ℕ → ℕ → List Row → List Row → SweepReport → Swept
unfolding is_candidate expired_entry sweep_entry
sweep_rows mode w now_ms days [] rows report = record { rows = rows; outcome = ok report }
sweep_rows mode w now_ms days (r ∷ rest) rows report =
    elim (if is_candidate r then expired_entry w now_ms days r else none) [
      | none ↦ sweep_rows mode w now_ms days rest rows report
      | some e ↦
          let one = sweep_entry mode w e rows report in
          elim one.outcome [
            | err x ↦ record { rows = one.rows; outcome = err x }
            | ok next ↦ sweep_rows mode w now_ms days rest one.rows next
          ]
    ]

-- maybe_emit_warning: whether the last warning is a day old.
abbrev pub maybe_emit : Option ℕ → ℕ → SweepReport → SweepReport
maybe_emit last now_ms report = record report {
  warning_emitted = elim last [ none ↦ true | some t ↦ leb warn_suppression_ms (now_ms - t) ];
}

abbrev pub with_warning : AutoPurge → Option ℕ → ℕ → SweepReport → SweepReport
with_warning warn last now_ms report =
    if is_empty report.would_purge then report else maybe_emit last now_ms report
with_warning _ last now_ms report = report

-- `last` is the time of the last warning; a manifest that does not exist has no table.
unfoldable pub sweep : AutoPurge → World → ℕ → ℕ → Option ℕ → Option (List Row) → Swept
unfolding sweep_rows
sweep off w now_ms days last table = record {
  rows = elim table [ none ↦ [] | some rows ↦ rows ];
  outcome = ok empty_report;
}
sweep mode w now_ms days last none = record { rows = []; outcome = ok empty_report }
sweep mode w now_ms days last (some rows) =
    let swept = sweep_rows mode w now_ms days rows rows empty_report in
    record {
      rows = swept.rows;
      outcome = elim swept.outcome [
        | err x ↦ err x
        | ok report ↦ ok (with_warning mode last now_ms report)
      ];
    }
