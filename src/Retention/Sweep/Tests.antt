-- ===== src/Retention/Sweep/Tests.antt =====
-- A purge of an old call beside a recent one.
use gaze_lens.Prelude.{
  ◌≡◌, refl, true, false, Text, codes, List, [], ◌∷◌, none, some, ok, inl, arith, Text-discrete,
  ◌==◌, Text-eq,
}
use gaze_lens.Retention.{purge}
use gaze_lens.Retention.Sweep.{Row, SweepReport, not_found, World, sweep}
use gaze_lens.Retention.Sweep.Expired.{IsExpired}
use gaze_lens.Retention.Sweep.Audit.{Aligned, Keeps, Aligned-sweep}
use gaze_lens.Retention.Sweep.Cleared.{IsDone, IsDone-sweep}

abbrev row_of : Text → Text → Row
row_of call session = record {
  call_id = call;
  lens_session_id = session;
  status = codes "ok";
  snapshot_ref = some (codes "/snap");
  purged_at_ms = none;
}

abbrev old_row : Row
old_row = row_of (codes "c1") (codes "old")

abbrev calls : List Row
calls = old_row ∷ row_of (codes "c2") (codes "new") ∷ []

abbrev world : World
world = record {
  ulid_ms = λ s. elim (s == codes "old") [ true ↦ some 0 | false ↦ some 864_000_000 ];
  remove_file = λ p. not_found;
  clock = λ id. 864_000_001;
  takes_update = λ id. true;
}

abbrev report : SweepReport
report = record {
  would_purge = [];
  purged =
      record {
        call_id = codes "c1";
        lens_session_id = codes "old";
        snapshot_path = codes "/snap";
        purged_at_ms = 864_000_001;
      }
      ∷ [];
  failed = [];
  warning_emitted = false;
}

old_row-IsExpired : IsExpired world 864_000_000 7 old_row
unfolding Text-discrete
old_row-IsExpired = record {
  path = codes "/snap";
  born = 0;
  fine = refl;
  held = refl;
  unpurged = refl;
  begun = refl;
  old = omega arith;
}

purges : (sweep purge world 864_000_000 7 none (some calls)).outcome ≡ ok report
unfolding sweep Text-discrete
purges = refl

Aligned-sweep_example :
    Aligned
      (Keeps purge world 864_000_000 7 calls)
      calls
      (sweep purge world 864_000_000 7 none (some calls)).rows
Aligned-sweep_example = Aligned-sweep purge world 864_000_000 7 none calls

IsDone-sweep_example :
    IsDone (codes "c1") (sweep purge world 864_000_000 7 none (some calls)).rows report
IsDone-sweep_example =
    IsDone-sweep world 864_000_000 7 none calls report old_row purges (inl refl) old_row-IsExpired
