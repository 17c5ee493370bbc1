-- ===== src/Retention.antt =====
-- Snapshot retention, src/session/maintenance.rs.
pub mod Order
pub mod Sweep
use gaze_lens.Prelude.{ℕ, Bool, true, false, leb, if◌then◌else◌, Eq}

pub data AutoPurge : Type 0 where
  off warn purge : AutoPurge

unfoldable pub AutoPurge-discrete : Discrete AutoPurge
AutoPurge-discrete = hlevel

instance abbrev pub AutoPurge-eq : Eq AutoPurge
AutoPurge-eq = record { dec = AutoPurge-discrete }

abbrev pub rank : AutoPurge → ℕ
rank off = 0
rank warn = 1
rank purge = 2

unfoldable pub cap_with : AutoPurge → AutoPurge → AutoPurge
cap_with self other = if leb (rank self) (rank other) then self else other
