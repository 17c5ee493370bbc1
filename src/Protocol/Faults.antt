-- ===== src/Protocol/Faults.antt =====
-- What the scanner of JSON of crates/gaze-lens-protocol/src/bounds.rs answers: with `require` and
-- `cap` as in Protocol/Bounds, and with one answer more than the source has, for a loop or a call of
-- the model that has no round left.
use gaze_lens.Prelude.{ℕ, Bool, leb, if◌then◌else◌, Result, ok, err}
use gaze_lens.Protocol.Errors.{Error, invalid_request, cap_exceeded}

pub data Fault : Type 0 where
  refused : Error → Fault
  out_of_rounds : Fault

abbrev pub Scanned : Type 0 → Type 0
Scanned A = Result Fault A

abbrev pub malformed : Fault
malformed = refused invalid_request

abbrev pub exceeded : Fault
exceeded = refused cap_exceeded

abbrev pub hold : Bool → Scanned (Unit {0})
hold holds = if holds then ok tt else err malformed

abbrev pub within : ℕ → ℕ → Scanned (Unit {0})
within size max = if leb size max then ok tt else err exceeded
