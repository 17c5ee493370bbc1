-- ===== src/Server/Connection/Released.antt =====
-- What stands behind a reply that the server releases.
use gaze_lens.Prelude.{
  ◌≡◌, refl, not, ◌||◌, ◌==◌, Text-eq, Text, ok, Result-cases, Bool-cases, arith, inl, inr, ℕ, List,
  [], ◌∷◌, Option, none, some, true,
}
use gaze_lens.Protocol.Errors.{Checked}
use gaze_lens.Protocol.Wire.{
  Operation, Operation-eq, query, schema, list_tables, log_tail, log_window, log_regex, inspect,
  readiness, DestinationBinding-eq,
}
use gaze_lens.Protocol.Args.{Call, operation}
use gaze_lens.Server.Auth.{Authority, Pinned, revalidate, check}
use gaze_lens.Server.Startup.{Fingerprints, History, identities, validate_history, same_identities}
use gaze_lens.Server.History.{Identity, Identity-discrete}
use gaze_lens.Server.Connection.{
  Success, ResultBody, readiness_configured, Reading, parsed, authority_at, revalidate_at, body_of,
  success_of, call,
}

-- The reading holds an authority that parses, whose identities are those that the running server
-- enrolled, and that still permits the pin.
pub record Permits (f : Fingerprints) (history : History) (pin : Pinned) (r : Reading)
    : Type 0 where
  pub raw : Authority
  pub authority : Authority
  pub now : ℕ
  pub file : r.file ≡ ok (some raw)
  pub parses : check raw ≡ ok authority
  pub enrolled : identities f authority ≡ ok history.enrolled
  pub read : authority_at f history r ≡ ok authority
  pub clock : r.now ≡ ok now
  pub valid : revalidate authority pin now ≡ ok tt

same_identities-eq : (vs ws : List Identity) → same_identities vs ws ≡ true → vs ≡ ws
same_identities-eq [] [] h = refl
same_identities-eq [] (w ∷ ws) h = absurd (ground arith)
same_identities-eq (v ∷ vs) [] h = absurd (ground arith)
same_identities-eq (v ∷ vs) (w ∷ ws) h = elim (Identity-discrete v w) [
  | yes e ↦ let rest = same_identities-eq vs ws (ground arith) in cc
  | no n ↦ absurd (ground arith)
]

parsed_is :
    (raw : Option Authority) (a : Authority)
    → parsed raw ≡ ok a
    → (b : Authority) × ((raw ≡ some b) × (check b ≡ ok a))
parsed_is none a h = absurd (ground arith)
parsed_is (some b) a h = elim (Result-cases (check b)) [
  | inl (_, bad) ↦ absurd (ground arith)
  | inr (c, good) ↦ (b, (refl, ground arith))
]

validated_enrolled :
    (f : Fingerprints) (history : History) (a : Authority)
    → validate_history f history a ≡ ok tt
    → identities f a ≡ ok history.enrolled
unfolding validate_history
validated_enrolled f history a h = elim (Result-cases (identities f a)) [
  | inl (_, bad) ↦ absurd (ground arith)
  | inr (now, named) ↦
      let same : same_identities history.enrolled now ≡ true = ground arith in
      rw (same_identities-eq history.enrolled now same) named
]

Permits-revalidate_at :
    (f : Fingerprints) (history : History) (pin : Pinned) (r : Reading)
    → revalidate_at f history pin r ≡ ok tt
    → Permits f history pin r
unfolding revalidate_at authority_at
Permits-revalidate_at f history pin r h = elim (Result-cases r.file) [
  | inl (_, bad) ↦ absurd (ground arith)
  | inr (some_raw, file) ↦ elim (Result-cases (parsed some_raw)) [
    | inl (_, bad) ↦ absurd (ground arith)
    | inr (a, good) ↦ elim (Result-cases (validate_history f history a)) [
      | inl (_, bad) ↦ absurd (ground arith)
      | inr (t, same) ↦ elim (Result-cases r.now) [
        | inl (_, bad) ↦ absurd (ground arith)
        | inr (n, clock) ↦
            let (raw, (is, checked)) = parsed_is some_raw a good in
            record {
              raw = raw;
              authority = a;
              now = n;
              file = rw (← is) file;
              parses = checked;
              enrolled = validated_enrolled f history a same;
              read = rw (authority_at, file, good, same) refl;
              clock = clock;
              valid = ground arith;
            }
      ]
    ]
  ]
]

pub record IsReleased (f : Fingerprints) (encode_success : Success → Call → Checked Text)
    (history : History) (pin : Pinned) (id : Text) (request : Checked Call) (first last : Reading)
    (bytes : Text) : Type 0 where
  pub sent : Call
  pub asked : request ≡ ok sent
  pub same_id : sent.id ≡ id
  pub same_operation : operation sent.args ≡ pin.operation
  pub same_binding : sent.binding ≡ pin.binding
  pub implemented : pin.operation ≡ readiness
  pub permitted_before : Permits f history pin first
  pub permitted_at_release : Permits f history pin last
  pub encoded : encode_success (success_of pin sent readiness_configured) sent ≡ ok bytes

implemented_only :
    (op : Operation) (b : ResultBody)
    → body_of op ≡ ok b
    → (op ≡ readiness) × (b ≡ readiness_configured)
implemented_only readiness b h = (refl, ground arith)
implemented_only query b h = absurd (ground arith)
implemented_only schema b h = absurd (ground arith)
implemented_only list_tables b h = absurd (ground arith)
implemented_only log_tail b h = absurd (ground arith)
implemented_only log_window b h = absurd (ground arith)
implemented_only log_regex b h = absurd (ground arith)
implemented_only inspect b h = absurd (ground arith)

-- If a Call is answered with bytes, then it repeats the id, the operation and the binding of its
-- Prepare, the operation is readiness, the bytes are the encoding of the pinned success, and both
-- the reading before the body and the last one before release hold an authority that parses, whose
-- identities are those that the running server enrolled, and that still permits the pin.
pub IsReleased-call :
    (f : Fingerprints) (encode_success : Success → Call → Checked Text) (history : History)
    (pin : Pinned) (id : Text) (request : Checked Call) (first last : Reading) (bytes : Text)
    → call f encode_success history pin id request first last ≡ ok bytes
    → IsReleased f encode_success history pin id request first last bytes
unfolding call
IsReleased-call f encode_success history pin id request first last bytes h =
    elim (Result-cases request) [
      | inl (_, bad) ↦ absurd (ground arith)
      | inr (c, asked) ↦
          elim (Bool-cases (not (c.id == id) || not (operation c.args == pin.operation))) [
            | inl other ↦ absurd (ground arith)
            | inr same ↦ elim (Bool-cases (not (c.binding == pin.binding))) [
              | inl other ↦ absurd (ground arith)
              | inr bound ↦ elim (Result-cases (revalidate_at f history pin first)) [
                | inl (_, bad) ↦ absurd (ground arith)
                | inr (t, before) ↦ elim (Result-cases (body_of pin.operation)) [
                  | inl (_, bad) ↦ absurd (ground arith)
                  | inr (result, built) ↦
                      elim (Result-cases (encode_success (success_of pin c result) c)) [
                        | inl (_, bad) ↦ absurd (ground arith)
                        | inr (out, encoded) ↦
                            elim (Result-cases (revalidate_at f history pin last)) [
                              | inl (_, bad) ↦ absurd (ground arith)
                              | inr (u, after) ↦
                                  let (is, body) = implemented_only pin.operation result built in
                                  let bytes_are : out ≡ bytes = ground arith in
                                  record {
                                    sent = c;
                                    asked = asked;
                                    same_id = ground arith;
                                    same_operation = ground arith;
                                    same_binding = ground arith;
                                    implemented = is;
                                    permitted_before =
                                        Permits-revalidate_at f history pin first before;
                                    permitted_at_release =
                                        Permits-revalidate_at f history pin last after;
                                    encoded = rw (← bytes_are, ← body) encoded;
                                  }
                            ]
                      ]
                ]
              ]
            ]
          ]
    ]
