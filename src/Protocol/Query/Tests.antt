-- ===== src/Protocol/Query/Tests.antt =====
-- A query that stands at several ceilings, and numbers.
use gaze_lens.Prelude.{◌≡◌, refl, false, codes, [], ◌∷◌, none, some, ok}
use gaze_lens.Protocol.Checks.{Accepts}
use gaze_lens.Protocol.Query.{
  Query, number_text, list, in_list, is_null, asc, or_any, number, validate,
}
use gaze_lens.Protocol.Query.Valid.{IsQuery, IsQuery-validate}

abbrev recent : Query
recent = record {
  table = codes "events";
  columns = some (codes "id" ∷ codes "kind" ∷ []);
  predicates = some (
      record {
        col = codes "id";
        op = in_list;
        val = some (list (number_text (codes "-1.5e+3") ∷ number_text (codes "0") ∷ []));
      }
      ∷ record { col = codes "kind"; op = is_null; val = none }
      ∷ []);
  where_combinator = some or_any;
  order_by = some (record { col = codes "id"; dir = asc } ∷ []);
  limit = some 1000;
}

IsQuery-validate_example : Accepts (validate recent) (IsQuery recent)
IsQuery-validate_example = IsQuery-validate recent

recent_accepted : validate recent ≡ ok tt
unfolding validate
recent_accepted = refl

no_leading_zero : number (codes "01") ≡ false
unfolding number
no_leading_zero = refl

no_bare_exponent : number (codes "1e") ≡ false
unfolding number
no_bare_exponent = refl
