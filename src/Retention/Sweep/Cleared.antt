-- ===== src/Retention/Sweep/Cleared.antt =====
-- What a purge that ends well has done with every expired snapshot.
use gaze_lens.Prelude.{
  ℕ, ◌≡◌, ◌⊎◌, refl, ap, ◌==◌, Text-eq, Bool-cases, Option-cases, Result-cases, Text, List, [], ◌∷◌,
  ◌++◌, Option, none, some, In, All, ok, arith, inl, inr,
}
use gaze_lens.Retention.{purge}
use gaze_lens.Retention.Sweep.{
  Row, ExpiredEntry, FailedEntry, SweepReport, empty_report, Removal, removed, not_found, refused,
  World, tombstone, failing, mark_purged, purge_entry, sweep_entry, sweep_rows, sweep,
}
use gaze_lens.Retention.Sweep.Expired.{IsExpired, candidate_entry, found_candidate}

-- No row under this call id refers to a snapshot.
abbrev pub IsCleared : Text → List Row → Type 0
IsCleared id rows = All (λ r. r.call_id ≡ id → r.snapshot_ref ≡ none) rows

abbrev pub IsReported : Text → List FailedEntry → Type 0
IsReported id failed = (f : FailedEntry) × (In f failed × (f.call_id ≡ id))

abbrev pub IsDone : Text → List Row → SweepReport → Type 0
IsDone id rows report = IsCleared id rows ⊎ IsReported id report.failed

IsCleared-tombstone : (id : Text) (at : ℕ) (rows : List Row) → IsCleared id (tombstone id at rows)
unfolding tombstone
IsCleared-tombstone id at [] = tt
IsCleared-tombstone id at (r ∷ rows) = elim (Bool-cases (r.call_id == id)) [
  | inl same ↦ rw same ((λ e. refl), IsCleared-tombstone id at rows)
  | inr other ↦ rw other ((λ e. absurd (ground arith)), IsCleared-tombstone id at rows)
]

IsCleared-still :
    (id other : Text) (at : ℕ) (rows : List Row)
    → IsCleared id rows
    → IsCleared id (tombstone other at rows)
unfolding tombstone
IsCleared-still id other at [] h = tt
IsCleared-still id other at (r ∷ rows) (c, h) = elim (Bool-cases (r.call_id == other)) [
  | inl same ↦ rw same ((λ e. refl), IsCleared-still id other at rows h)
  | inr differs ↦ rw differs (c, IsCleared-still id other at rows h)
]

IsReported-more :
    (id : Text) (xs ys : List FailedEntry) → IsReported id xs → IsReported id (xs ++ ys)
IsReported-more id xs ys (f, (m, e)) = (f, (earlier xs m, e))
  where
    earlier : (zs : List FailedEntry) → In f zs → In f (zs ++ ys)
    earlier [] n = absurd n
    earlier (z ∷ zs) (inl q) = inl q
    earlier (z ∷ zs) (inr n) = inr (earlier zs n)

In-last : (xs : List FailedEntry) (f : FailedEntry) → In f (xs ++ f ∷ [])
In-last [] f = inl refl
In-last (x ∷ xs) f = inr (In-last xs f)

-- A stage that goes on has dealt with its entry, and what was done before stays done.
record GoesOn (e : ExpiredEntry) (before : List Row) (report : SweepReport) (after : List Row)
    (next : SweepReport) : Type 0 where
  done : IsDone e.call_id after next
  still : (id : Text) → IsDone id before report → IsDone id after next

module _ (w : World) (e : ExpiredEntry) (rows : List Row) (report next : SweepReport) where
  GoesOn-mark :
      (mark_purged w e rows report).outcome ≡ ok next
      → GoesOn e rows report (mark_purged w e rows report).rows next
  GoesOn-mark h = elim (Bool-cases (w.takes_update e.call_id)) [
    | inr no_update ↦ absurd (ground arith)
    | inl taken ↦
        let failed : report.failed ≡ next.failed = ground arith in
        let cleared = IsCleared-tombstone e.call_id (w.clock e.call_id) rows in
        rw taken (record {
          done = inl cleared;
          still = λ id d. elim d [
            | inl c ↦ inl (IsCleared-still id e.call_id (w.clock e.call_id) rows c)
            | inr (f, (m, q)) ↦ inr (f, (rw (← failed) m, q))
          ];
        })
  ]

  GoesOn-purge_entry :
      (a : Removal)
      → w.remove_file e.snapshot_path ≡ a
      → (purge_entry w e rows report).outcome ≡ ok next
      → GoesOn e rows report (purge_entry w e rows report).rows next
  unfolding purge_entry
  GoesOn-purge_entry removed eq h = rw (purge_entry, eq) (GoesOn-mark (rw (purge_entry, eq) at h))
  GoesOn-purge_entry not_found eq h = rw (purge_entry, eq) (GoesOn-mark (rw (purge_entry, eq) at h))
  GoesOn-purge_entry (refused d) eq h =
      let failed : report.failed ++ failing e d ∷ [] ≡ next.failed = ground arith in
      rw (purge_entry, eq)
        (record {
          done = inr (failing e d, (rw (← failed) (In-last report.failed (failing e d)), refl));
          still = λ id done. elim done [
            | inl c ↦ inl c
            | inr r ↦ inr (rw (← failed) (IsReported-more id report.failed (failing e d ∷ []) r))
          ];
        })

module _ (w : World) (now_ms days : ℕ) where
  record AllDone (rest rows : List Row) (report : SweepReport) (after : List Row)
      (final : SweepReport) : Type 0 where
    each_done :
        (c : Row) (e : ExpiredEntry)
        → In c rest
        → candidate_entry w now_ms days c ≡ some e
        → IsDone e.call_id after final
    still : (id : Text) → IsDone id rows report → IsDone id after final

  AllDone-sweep_rows :
      (rest rows : List Row) (report final : SweepReport)
      → (sweep_rows purge w now_ms days rest rows report).outcome ≡ ok final
      → AllDone rest rows report (sweep_rows purge w now_ms days rest rows report).rows final
  unfolding sweep_rows sweep_entry
  AllDone-sweep_rows [] rows report final h =
      let same : report ≡ final = ground arith in
      record { each_done = λ c e m f. absurd m; still = λ id d. rw (← same) d }
  AllDone-sweep_rows (r ∷ rest) rows report final h =
      elim (Option-cases (candidate_entry w now_ms days r)) [
        | inl skip ↦
            let ih = AllDone-sweep_rows rest rows report final (rw (sweep_rows, skip) at h) in
            rw (sweep_rows, skip)
              (record {
                each_done = λ c e m f. elim m [
                  | inl here ↦
                      absurd
                        (let bad = ap (λ x. candidate_entry w now_ms days x) here in ground arith)
                  | inr later ↦ ih.each_done c e later f
                ];
                still = ih.still;
              })
        | inr (e, found) ↦ elim (Result-cases (sweep_entry purge w e rows report).outcome) [
          | inl (x, stop) ↦ absurd (let bad = rw (sweep_rows, found, stop) at h in ground arith)
          | inr (next, go) ↦
              let one =
                GoesOn-purge_entry w e rows report next (w.remove_file e.snapshot_path) refl go in
              let ih =
                AllDone-sweep_rows rest (sweep_entry purge w e rows report).rows next final
                  (rw (sweep_rows, found, go) at h) in
              rw (sweep_rows, found, go)
                (record {
                  each_done = λ c e' m f. elim m [
                    | inl here ↦
                        let found' = ap (λ x. candidate_entry w now_ms days x) here in
                        let same : e ≡ e' = ground arith in
                        rw (← same) (ih.still e.call_id one.done)
                    | inr later ↦ ih.each_done c e' later f
                  ];
                  still = λ id d. ih.still id (one.still id d);
                })
        ]
      ]

-- If a sweep in purge mode ends well, then for every row that is of status ok, has a snapshot, was
-- not purged before and whose session began more than the days of the retention ago, no row under
-- its call id refers to a snapshot any more, unless the report lists the call id among the failed
-- removals.
pub IsDone-sweep :
    (w : World) (now_ms days : ℕ) (last : Option ℕ) (rows : List Row) (report : SweepReport)
    (c : Row)
    → (sweep purge w now_ms days last (some rows)).outcome ≡ ok report
    → In c rows
    → IsExpired w now_ms days c
    → IsDone c.call_id (sweep purge w now_ms days last (some rows)).rows report
unfolding sweep
IsDone-sweep w now_ms days last rows report c h m x =
    elim (Result-cases (sweep_rows purge w now_ms days rows rows empty_report).outcome) [
      | inl (x, stop) ↦ absurd (ground arith)
      | inr (final, go) ↦
          let same : final ≡ report = ground arith in
          let (e, (f, id)) = found_candidate w now_ms days c x in
          rw (← same, ← id)
            ((AllDone-sweep_rows w now_ms days rows rows empty_report final go).each_done c e m f)
    ]
