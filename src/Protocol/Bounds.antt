-- ===== src/Protocol/Bounds.antt =====
-- The ceilings and the elementary checks of crates/gaze-lens-protocol/src/bounds.rs.
use gaze_lens.Prelude.{
  ℕ, Bool, not, ◌&&◌, ◌||◌, ◌==◌, ℕ_eq, ℕ_discrete, leb, if◌then◌else◌, Text, length, is_empty, all,
  is_digit, is_lower, is_upper, ok, err, ◌>>◌,
}
use gaze_lens.Protocol.Errors.{Checked, invalid_request, cap_exceeded}

abbrev pub frame_bytes : ℕ
frame_bytes = 1_048_576

abbrev pub prepare_bytes : ℕ
prepare_bytes = 4096

abbrev pub request_bytes : ℕ
request_bytes = 65_536

abbrev pub result_bytes : ℕ
result_bytes = 131_072

abbrev pub scalar_bytes : ℕ
scalar_bytes = 8192

abbrev pub identifier_bytes : ℕ
identifier_bytes = 256

abbrev pub max_rows : ℕ
max_rows = 1000

abbrev pub default_rows : ℕ
default_rows = 100

abbrev pub max_columns : ℕ
max_columns = 128

abbrev pub max_predicates : ℕ
max_predicates = 64

abbrev pub max_order : ℕ
max_order = 16

abbrev pub max_binds : ℕ
max_binds = 1024

abbrev pub max_entries : ℕ
max_entries = 1000

abbrev pub keyword_window_lines : ℕ
keyword_window_lines = 1000

abbrev pub scan_bytes : ℕ
scan_bytes = 1_048_576

abbrev pub scan_lines : ℕ
scan_lines = 16_384

abbrev pub regex_bytes : ℕ
regex_bytes = 4096

abbrev pub inventory_records : ℕ
inventory_records = 100_000

abbrev pub max_packages : ℕ
max_packages = 500

abbrev pub max_php : ℕ
max_php = 32

abbrev pub max_principal_calls : ℕ
max_principal_calls = 2

abbrev pub require : Bool → Checked (Unit {0})
require holds = if holds then ok tt else err invalid_request

abbrev pub cap : ℕ → ℕ → Checked (Unit {0})
cap size max = if leb size max then ok tt else err cap_exceeded

abbrev pub identifier : Text → Checked (Unit {0})
identifier name = do require (not (is_empty name)); cap (length name) identifier_bytes

unfoldable pub configured_id : Text → Checked (Unit {0})
unfolding ℕ_discrete
configured_id name = require (
    not (is_empty name)
    && leb (length name) 64
    && all (λ b. is_digit b || is_lower b || is_upper b || b == b'_' || b == b'-') name)

abbrev pub text : Text → Checked (Unit {0})
text value = cap (length value) scalar_bytes

-- crates/gaze-lens-server/src/lib.rs: exact-length lowercase hex.
unfoldable pub hex : Text → ℕ → Bool
unfolding ℕ_discrete
hex value len = length value == len && all (λ b. is_digit b || leb b'a' b && leb b b'f') value
