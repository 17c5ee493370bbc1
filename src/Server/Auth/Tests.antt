-- ===== src/Server/Auth/Tests.antt =====
-- An authority with one principal, one resource and one grant, and the theorems at it.
use gaze_lens.Prelude.{◌≡◌, refl, ◌↔◌, true, [], ◌∷◌, Text, codes, ok, err, Text-discrete}
use gaze_lens.Protocol.Errors.{unauthorized, binding_changed}
use gaze_lens.Protocol.Wire.{Prepare, readiness, Operation-discrete}
use gaze_lens.Server.Auth.{
  Principal, Resource, Grant, Authority, Pinned, log, check, fold_principals, grant, pin_of,
  prepare, revalidate, Principal-discrete, Resource-discrete,
}
use gaze_lens.Server.Auth.Consistent.{IsConsistent, check_iff}
use gaze_lens.Server.Auth.Pin.{IsPinned, IsGranted, Holds, prepare_iff, revalidate_iff}

abbrev digest : Text
digest = codes "0123456789abcdef0123456789abcdef0123456789abcdef0123456789abcdef"

abbrev sha256 : Text → Text
sha256 credential = digest

abbrev alice : Principal
alice = record {
  id = codes "a0000000000000000000000000000001";
  generation = codes "b0000000000000000000000000000001";
  sha256 = digest;
}

abbrev app_log : Resource
app_log = record {
  alias = codes "app-log";
  id = codes "c0000000000000000000000000000001";
  generation = codes "d0000000000000000000000000000001";
  class = log;
}

abbrev may_probe : Grant
may_probe = record {
  principal = alice.id;
  resource = app_log.id;
  operation = readiness;
  enabled = true;
  expires_unix = 2000;
}

abbrev authority : Authority
authority = record { principals = alice ∷ []; resources = app_log ∷ []; grants = may_probe ∷ [] }

abbrev hello : Prepare
hello = record {
  id = codes "01ARZ3NDEKTSV4RRFFQ69G5FAV";
  credential = codes "secret";
  resource = codes "app-log";
  operation = readiness;
}

abbrev pin : Pinned
pin = pin_of alice app_log readiness

authority_ok : check authority ≡ ok authority
unfolding check
authority_ok = refl

hello_pins : prepare sha256 authority hello 1000 ≡ ok pin
unfolding prepare fold_principals grant Text-discrete Operation-discrete
hello_pins = refl

hello_late : prepare sha256 authority hello 2000 ≡ err unauthorized
unfolding prepare fold_principals grant Text-discrete Operation-discrete
hello_late = refl

-- A new generation of the principal is another principal.
renewed :
    revalidate
      (record authority { principals = record alice { generation = digest } ∷ [] })
      pin
      1000
    ≡ err binding_changed
unfolding revalidate Principal-discrete Resource-discrete
renewed = refl

check_iff_example : (check authority ≡ ok authority) ↔ IsConsistent authority
check_iff_example = check_iff authority

prepare_iff_example :
    (prepare sha256 authority hello 1000 ≡ ok pin) ↔ IsPinned sha256 authority hello 1000 pin
prepare_iff_example =
    prepare_iff sha256 authority hello 1000 pin ((check_iff authority).0 authority_ok)

revalidate_iff_example :
    ((revalidate authority pin 1000 ≡ ok tt)
      ↔ (Holds authority pin × IsGranted authority alice.id app_log.id readiness 1000))
    × ((revalidate authority pin 1000 ≡ err binding_changed) ↔ ¬ Holds authority pin)
revalidate_iff_example = revalidate_iff authority pin 1000
