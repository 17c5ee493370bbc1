-- ===== src/Protocol/Results/Tests.antt =====
-- Two pages of packages, and a tail.
use gaze_lens.Prelude.{
  ◌≡◌, ◌≤◌, ◌+◌, suc, refl, codes, ℕ, List, [], ◌∷◌, length, some, none, ok, arith,
}
use gaze_lens.Protocol.Errors.{Checked}
use gaze_lens.Protocol.Args.{Args, Inspect, packages}
use gaze_lens.Protocol.Results.Types.{records}
use gaze_lens.Protocol.Results.Checks.{check_page}
use gaze_lens.Protocol.Results.{ResultBody, validate_for}
use gaze_lens.Protocol.Results.Paging.{Answered, sum_returned, paged_all}
use gaze_lens.Protocol.Results.Logs.{IsLogResult, log_accepted}

abbrev asked : ℕ → Inspect
asked offset = record { view = packages; collector = codes "dpkg"; limit = 2; offset = some offset }

abbrev first_page : Answered
first_page = record {
  request = asked 0;
  page = record { offset = 0; returned = 2; total = 3; next_offset = some 2 };
  returned = 2;
  truncated = records ∷ [];
}

abbrev last_page : Answered
last_page = record {
  request = asked 2;
  page = record { offset = 2; returned = 1; total = 3; next_offset = none };
  returned = 1;
  truncated = [];
}

abbrev pages : List Answered
pages = first_page ∷ last_page ∷ []

paged_all_example : (0 + sum_returned pages ≡ 3) × (0 + length pages ≤ suc 3)
unfolding check_page
paged_all_example =
    paged_all 0 3 pages (refl, (refl, (refl, (refl, (refl, (refl, refl)))))) (omega arith)

abbrev any_value : Unit {0} → Checked (Unit {0})
any_value value = ok tt

abbrev tail_result : ResultBody (Unit {0})
tail_result =
    ResultBody.log_window (codes "one" ∷ codes "two" ∷ [])
      (record { scanned_bytes = 8; scanned_lines = 2; admitted_lines = 2 }) []

tail_accepted : validate_for any_value 100 tail_result (Args.log_tail 5) ≡ ok tt
unfolding validate_for
tail_accepted = refl

log_accepted_example : IsLogResult tail_result (Args.log_tail 5)
log_accepted_example = log_accepted any_value 100 tail_result (Args.log_tail 5) tail_accepted
