-- ===== src/Protocol/Json/Tests.antt =====
-- The scanner on concrete texts.
use gaze_lens.Prelude.{
  ℕ_discrete, ◌≡◌, ◌≤◌, refl, Bool, true, false, Text, codes, length, Option, none, ok, err, ◌⊎◌,
}
use gaze_lens.Protocol.Errors.{invalid_request, cap_exceeded}
use gaze_lens.Protocol.Faults.{refused}
use gaze_lens.Protocol.Json.{scan_json}
use gaze_lens.Protocol.Json.Settled.{Settles-scan_json}
use gaze_lens.Protocol.Json.Sound.{IsAdmitted, scan_json-IsAdmitted}

abbrev any_text : Text → Bool
any_text t = true

abbrev no_text : Text → Option Text
no_text t = none

abbrev nested : Text
nested = codes " {\"a\" : [1, -2.5e3, \"x\\n\"], \"b\":{}} "

nested_ok : scan_json any_text no_text nested 100 true 50 ≡ ok tt
unfolding scan_json ℕ_discrete
nested_ok = refl

doubled :
    scan_json any_text no_text (codes "{\"a\":1,\"a\":2}") 100 false 50
    ≡ err (refused invalid_request)
unfolding scan_json ℕ_discrete
doubled = refl

open_list : scan_json any_text no_text (codes "[1,") 100 false 50 ≡ err (refused invalid_request)
unfolding scan_json ℕ_discrete
open_list = refl

scan_json-IsAdmitted_example :
    IsAdmitted any_text no_text true nested × (length nested ≤ 100) × (any_text nested ≡ true)
scan_json-IsAdmitted_example = scan_json-IsAdmitted any_text no_text nested 100 true 50 nested_ok

Settles-scan_json_example :
    (scan_json any_text no_text nested 100 true 50 ≡ ok tt)
    ⊎ ((scan_json any_text no_text nested 100 true 50 ≡ err (refused invalid_request))
        ⊎ (scan_json any_text no_text nested 100 true 50 ≡ err (refused cap_exceeded)))
Settles-scan_json_example = Settles-scan_json any_text no_text nested 100 true 50
