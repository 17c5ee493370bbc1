-- ===== src/Protocol/Values/Tests.antt =====
-- Decimals and JSON at concrete inputs.
use gaze_lens.Prelude.{◌≡◌, refl, ℕ_discrete, true, Text, codes, ok}
use gaze_lens.Protocol.Values.{
  pos, negsuc, Decimal, has_minus, strip_minus, with_sign, decimal, validate_decimal, compact_json,
}
use gaze_lens.Protocol.Values.Decimals.{decimal_valid}
use gaze_lens.Protocol.Values.Exact.{IsExact, decimal-IsExact}

abbrev price : Decimal
price = record { value = codes "-0.05"; precision = 2; scale = 2 }

price_spelled : decimal (codes "-5") (pos 2) ≡ ok price
unfolding decimal
price_spelled = refl

thousands :
    decimal (codes "12") (negsuc 2)
    ≡ ok (record { value = codes "12000"; precision = 5; scale = 0 })
unfolding decimal
thousands = refl

decimal_valid_example : validate_decimal price ≡ ok tt
decimal_valid_example = decimal_valid (codes "-5") (pos 2) price price_spelled

decimal-IsExact_example :
    (body : Text) × ((codes "-0.05" ≡ with_sign true body) × IsExact body (codes "5") 2 0)
unfolding has_minus strip_minus ℕ_discrete
decimal-IsExact_example = decimal-IsExact (codes "-5") (pos 2) price price_spelled

abbrev spaced : Text
spaced = codes "{ \"a b\" : [1, 2] }"

compacted : compact_json spaced ≡ codes "{\"a b\":[1,2]}"
unfolding gaze_lens.Protocol.Values.compact
compacted = refl
