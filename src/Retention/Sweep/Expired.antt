-- ===== src/Retention/Sweep/Expired.antt =====
-- Which rows of the table of calls are expired, beside the tests of the sweep.
use gaze_lens.Prelude.{
  ℕ, ◌-◌, ◌*◌, ◌<◌, ◌≡◌, refl, true, false, ◌==◌, Text-eq, Text-discrete, eq_true, is_yes-holds,
  ◌/◌, ◌%◌, Bool-cases, Option-cases, leb, if◌then◌else◌, Text, codes, Option, none, some, arith,
  inl, inr,
}
use gaze_lens.Retention.Sweep.{Row, ExpiredEntry, World, ms_per_day, is_candidate, expired_entry}

-- A row of status ok with a snapshot, not purged, of a session begun more than the days ago.
pub record IsExpired (w : World) (now_ms days : ℕ) (r : Row) : Type 0 where
  pub path : Text
  pub born : ℕ
  pub fine : r.status ≡ codes "ok"
  pub held : r.snapshot_ref ≡ some path
  pub unpurged : r.purged_at_ms ≡ none
  pub begun : w.ulid_ms r.lens_session_id ≡ some born
  pub old : days * 86_400_000 < now_ms - born

-- The row that a sweep finds expired.
abbrev pub candidate_entry : World → ℕ → ℕ → Row → Option ExpiredEntry
candidate_entry w now_ms days r = if is_candidate r then expired_entry w now_ms days r else none

-- What a sweep finds of a row is the row's.
pub record IsFound (w : World) (now_ms days : ℕ) (r : Row) (e : ExpiredEntry) : Type 0 where
  pub expired : IsExpired w now_ms days r
  pub same : e.call_id ≡ r.call_id
  pub at_path : e.snapshot_path ≡ expired.path

pub candidate_entry-IsFound :
    (w : World) (now_ms days : ℕ) (r : Row) (e : ExpiredEntry)
    → candidate_entry w now_ms days r ≡ some e
    → IsFound w now_ms days r e
unfolding is_candidate expired_entry
candidate_entry-IsFound w now_ms days r e h = elim (Option-cases r.snapshot_ref) [
  | inl none_so ↦ absurd (ground arith)
  | inr (path, held) ↦ elim (Option-cases r.purged_at_ms) [
    | inr (t, purged) ↦ absurd (ground arith)
    | inl unpurged ↦ elim (Option-cases (w.ulid_ms r.lens_session_id)) [
      | inl no_time ↦ absurd (ground arith)
      | inr (born, begun) ↦ elim (Bool-cases (leb (now_ms - born) (days * ms_per_day))) [
        | inl recent ↦ absurd (ground arith)
        | inr late ↦ elim (Bool-cases (r.status == codes "ok")) [
          | inr other ↦ absurd (ground arith)
          | inl fine ↦ record {
            expired = record {
              path = path;
              born = born;
              fine = eq_true r.status (codes "ok") fine;
              held = held;
              unpurged = unpurged;
              begun = begun;
              old = ground arith;
            };
            same = ground arith;
            at_path = ground arith;
          }
        ]
      ]
    ]
  ]
]

not_leb : (a b : ℕ) → b < a → leb a b ≡ false
not_leb a b h = ground arith

equal_text : (a b : Text) → a ≡ b → (a == b) ≡ true
equal_text a b e = elim (Bool-cases (a == b)) [
  | inl same ↦ same
  | inr differs ↦ absurd (is_yes-holds (Text-discrete a b) e differs)
]

found_at :
    (w : World) (now_ms days : ℕ) (r : Row) (path : Text) (born : ℕ)
    → (r.status == codes "ok") ≡ true
    → r.snapshot_ref ≡ some path
    → r.purged_at_ms ≡ none
    → w.ulid_ms r.lens_session_id ≡ some born
    → leb (now_ms - born) (days * ms_per_day) ≡ false
    → candidate_entry w now_ms days r
      ≡ some (record {
        call_id = r.call_id;
        lens_session_id = r.lens_session_id;
        snapshot_path = path;
        ulid_ms = born;
        age_days = (now_ms - born) / ms_per_day % 4_294_967_296;
      })
unfolding is_candidate expired_entry
found_at w now_ms days r path born fine held unpurged begun late = ground arith

pub found_candidate :
    (w : World) (now_ms days : ℕ) (r : Row)
    → IsExpired w now_ms days r
    → (e : ExpiredEntry) × ((candidate_entry w now_ms days r ≡ some e) × (e.call_id ≡ r.call_id))
found_candidate w now_ms days r x =
    let late : leb (now_ms - x.born) (days * ms_per_day) ≡ false = not_leb _ _ x.old in
    let fine : (r.status == codes "ok") ≡ true = equal_text r.status (codes "ok") x.fine in
    (
      record {
        call_id = r.call_id;
        lens_session_id = r.lens_session_id;
        snapshot_path = x.path;
        ulid_ms = x.born;
        age_days = (now_ms - x.born) / ms_per_day % 4_294_967_296;
      },
      (found_at w now_ms days r x.path x.born fine x.held x.unpurged x.begun late, refl),
    )
