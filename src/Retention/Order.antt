-- ===== src/Retention/Order.antt =====
-- `cap_with` is the minimum in the order off, warn, purge.
use gaze_lens.Prelude.{◌≤◌, ◌≡◌, ◌⊎◌, arith}
use gaze_lens.Retention.{AutoPurge, rank, cap_with}

pub cap_with_min :
    (self other : AutoPurge)
    → (rank (cap_with self other) ≤ rank self)
      × (rank (cap_with self other) ≤ rank other)
      × ((cap_with self other ≡ self) ⊎ (cap_with self other ≡ other))
unfolding cap_with
cap_with_min self other = ground arith

pub cap_with_comm : (self other : AutoPurge) → cap_with self other ≡ cap_with other self
unfolding cap_with
cap_with_comm self other = ground arith
