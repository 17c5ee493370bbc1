-- ===== src/Server/History/Tests.antt =====
-- Enrolments at concrete identities, and the theorems at them.
use gaze_lens.Prelude.{
  ℕ, ◌≡◌, ◌≢◌, refl, ◌↔◌, true, false, List, [], ◌∷◌, Text, codes, ok, err, In, Pairs,
  Text-discrete, arith, Text-eq,
}
use gaze_lens.Protocol.Errors.{binding_changed}
use gaze_lens.Protocol.Bounds.{hex}
use gaze_lens.Server.History.{
  Identity, Ledger, principal, resource, validate, enroll, enroll_all, enroll_one, rposition,
  entry_at, deactivate, retire, Identity-discrete,
}
use gaze_lens.Server.History.Valid.{IsValid, validate_iff}
use gaze_lens.Server.History.Preserve.{AreShaped, validate-enroll}
use gaze_lens.Server.History.Grow.{Grows, Grows-enroll}
use gaze_lens.Server.History.Active.{IsLive, OtherIds, IsLive-iff_requested}
use gaze_lens.Server.History.Again.{enroll-enroll}

abbrev sha : Text
sha = codes "0123456789abcdef0123456789abcdef0123456789abcdef0123456789abcdef"

abbrev alice : Identity
alice = record {
  kind = principal;
  id = codes "a0000000000000000000000000000001";
  generation = codes "b0000000000000000000000000000001";
  fingerprint = sha;
}

-- The same principal with a new credential.
abbrev alice_renewed : Identity
alice_renewed = record alice { generation = codes "b0000000000000000000000000000002" }

abbrev orders : Identity
orders = record {
  kind = resource;
  id = codes "c0000000000000000000000000000001";
  generation = codes "d0000000000000000000000000000001";
  fingerprint = sha;
}

abbrev size : Ledger → ℕ
size ledger = 400

abbrev start : Ledger
start = record { version = 1; entries = record { identity = alice; active = true } ∷ [] }

abbrev rotated : List Identity
rotated = alice_renewed ∷ orders ∷ []

abbrev finish : Ledger
finish = record {
  version = 1;
  entries =
      record { identity = alice; active = false }
      ∷ record { identity = alice_renewed; active = true }
      ∷ record { identity = orders; active = true }
      ∷ [];
}

enroll-rotated : enroll size start rotated ≡ ok (finish, true)
unfolding enroll validate enroll_all enroll_one rposition entry_at deactivate retire hex
    Text-discrete Identity-discrete
enroll-rotated = refl

-- A retired generation cannot come back.
enroll_retired : enroll size finish (alice ∷ []) ≡ err binding_changed
unfolding enroll validate enroll_all enroll_one rposition entry_at deactivate retire hex
    Text-discrete Identity-discrete
enroll_retired = refl

rotated_shaped : AreShaped rotated
unfolding hex
rotated_shaped = (refl, (refl, tt))

alice_not_orders : alice.id ≢ orders.id
alice_not_orders e = ground arith

rotated_apart : Pairs OtherIds rotated
rotated_apart = ((alice_not_orders, tt), (tt, tt))

validate_iff_example : (validate start ≡ ok tt) ↔ IsValid start
validate_iff_example = validate_iff start

validate-enroll_example : validate finish ≡ ok tt
validate-enroll_example =
    validate-enroll size start finish rotated true rotated_shaped enroll-rotated

Grows-enroll_example : Grows start.entries finish.entries
Grows-enroll_example = Grows-enroll size start finish rotated true enroll-rotated

IsLive-iff_requested_example : IsLive finish.entries orders ↔ In orders rotated
IsLive-iff_requested_example =
    IsLive-iff_requested size start finish rotated true rotated_shaped rotated_apart enroll-rotated
      orders

enroll-enroll_example : enroll size finish rotated ≡ ok (finish, false)
enroll-enroll_example =
    enroll-enroll size start finish rotated true rotated_shaped rotated_apart enroll-rotated
