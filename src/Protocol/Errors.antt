-- ===== src/Protocol/Errors.antt =====
-- The fixed failures of crates/gaze-lens-protocol/src/lib.rs.
use gaze_lens.Prelude.{Result}

pub data Error : Type 0 where
  invalid_request unauthorized unsupported_version unsupported_operation unavailable : Error
  cap_exceeded timeout binding_changed internal_failure : Error

-- The crate's `Result`.
abbrev pub Checked : Type 0 → Type 0
Checked A = Result Error A
