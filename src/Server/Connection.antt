-- ===== src/Server/Connection.antt =====
-- One connection and its admission, crates/gaze-lens-server/src/service.rs. What the peer sends and
-- what the authority file holds at each reading are given to the model.
pub mod Released
pub mod Admission
pub mod Served
mod Tests
use gaze_lens.Prelude.{
  ℕ, suc, ◌+◌, ◌-◌, Bool, true, false, not, ◌||◌, ◌==◌, ℕ_eq, ℕ_discrete, Text-eq, Text-discrete,
  leb, if◌then◌else◌, Text, List, [], ◌∷◌, Option, none, some, Result, ok, err, ◌>>=◌, ◌>>◌,
}
use gaze_lens.Protocol.Errors.{
  Error, Checked, invalid_request, unauthorized, unavailable, unsupported_operation,
  binding_changed,
}
use gaze_lens.Protocol.Bounds.{max_principal_calls}
use gaze_lens.Protocol.Wire.{
  Operation, Operation-eq, Operation-discrete, readiness, DestinationBinding, DestinationBinding-eq,
  DestinationBinding-discrete, Prepare, Prepared,
}
use gaze_lens.Protocol.Args.{Call, operation}
use gaze_lens.Server.Auth.{Authority, Pinned, check, prepare, revalidate}
use gaze_lens.Server.Startup.{Fingerprints, History, validate_history}

-- ResultBody::Readiness is the one body that the server builds.
pub data ResultBody : Type 0 where
  readiness_configured : ResultBody

pub record Success : Type 0 where
  pub id : Text
  pub operation : Operation
  pub binding : DestinationBinding
  pub result : ResultBody

-- The counts of PrincipalPermit, a map from principals.
abbrev pub Counts : Type 0
Counts = Text → Option ℕ

unfoldable pub update : Counts → Text → Option ℕ → Counts
unfolding Text-discrete
update counts id value key = if key == id then value else counts key

-- `*counts.entry(id).or_default()`
abbrev pub active_calls : Counts → Text → ℕ
active_calls counts id = elim (counts id) [ none ↦ 0 | some n ↦ n ]

-- PrincipalPermit::acquire. A refusal changes nothing: the entry that it read was there.
unfoldable pub acquire : Counts → Text → Checked Counts
unfolding update
acquire counts id =
    if leb max_principal_calls (active_calls counts id)
    then err unavailable
    else ok (update counts id (some (active_calls counts id + 1)))

-- PrincipalPermit::drop: one less, and the key is removed at 0.
unfoldable pub drop_permit : Counts → Text → Counts
unfolding update ℕ_discrete
drop_permit counts id = elim (counts id) [
  | none ↦ counts
  | some n ↦ if n - 1 == 0 then update counts id none else update counts id (some (n - 1))
]

-- One reading of the authority file, its value as serde_json reads it, and of the clock.
pub record Reading : Type 0 where
  pub file : Checked (Option Authority)
  pub now : Checked ℕ

abbrev pub parsed : Option Authority → Checked Authority
parsed none = err unauthorized
parsed (some a) = elim (check a) [ ok b ↦ ok b | err e ↦ err unauthorized ]

abbrev pub body_of : Operation → Checked ResultBody
body_of readiness = ok readiness_configured
body_of _ = err unsupported_operation

abbrev pub success_of : Pinned → Call → ResultBody → Success
success_of pin call result = record {
  id = call.id;
  operation = pin.operation;
  binding = pin.binding;
  result = result;
}

module _ (f : Fingerprints) where
  -- `authority`
  unfoldable pub authority_at : History → Reading → Checked Authority
  unfolding check validate_history
  authority_at history r = do raw ← r.file; a ← parsed raw; validate_history f history a; ok a

  -- `authority(path, history).await?.revalidate(pin, now()?)?`
  unfoldable pub revalidate_at : History → Pinned → Reading → Checked (Unit {0})
  unfolding authority_at revalidate
  revalidate_at history pin r = do a ← authority_at history r; now ← r.now; revalidate a pin now

  -- The Call as decode_call gives it, and the two readings, before the body and before release.
  module _ (encode_success : Success → Call → Checked Text) where
    unfoldable pub call : History → Pinned → Text → Checked Call → Reading → Reading → Checked Text
    unfolding Text-discrete Operation-discrete DestinationBinding-discrete operation revalidate_at
    call history pin id request first last = do
      c ← request
      if not (c.id == id) || not (operation c.args == pin.operation)
          then err invalid_request
          else if not (c.binding == pin.binding)
          then err binding_changed
          else do
            revalidate_at history pin first
            result ← body_of pin.operation
            bytes ← encode_success (success_of pin c result) c
            revalidate_at history pin last
            ok bytes

-- The frames that the server writes, in order.
pub data Frame : Type 0 where
  prepared : Prepared → Frame
  failure : (id : Text) → Error → Frame
  success : (bytes : Text) → Frame

abbrev pub prepared_of : Prepare → Pinned → Prepared
prepared_of p pin = record { id = p.id; operation = p.operation; binding = pin.binding }

abbrev pub admission : Counts → Pinned → Checked Counts
admission counts pin =
    if pin.operation == readiness
    then acquire counts pin.binding.principal
    else err unsupported_operation

-- The last frame of a call.
abbrev pub outcome_frame : Text → Checked Text → Frame
outcome_frame id (ok bytes) = success bytes
outcome_frame id (err code) = failure id code

-- A Prepare as decode_prepare gives it, and the authority at that time.
module _ (sha256 : Text → Text) (f : Fingerprints) where
  unfoldable pub pin_at : History → Checked Prepare → Reading → Checked (Prepare × Pinned)
  unfolding authority_at prepare
  pin_at history hello r = do
    p ← hello
    a ← authority_at f history r
    now ← r.now
    pin ← prepare sha256 a p now
    ok (p, pin)

-- `connection`, on a socket that takes every frame and while no other connection changes the counts:
-- the frames, and the counts once its permit is dropped.
module _ (sha256 : Text → Text) (f : Fingerprints)
    (encode_success : Success → Call → Checked Text) where
  unfoldable pub connection :
      History
      → Counts
      → Checked Prepare
      → Reading
      → Checked Call
      → Reading
      → Reading
      → Checked (List Frame) × Counts
  unfolding pin_at acquire call drop_permit Operation-discrete
  connection history counts hello r request first last = elim (pin_at sha256 f history hello r) [
    | err e ↦ (err e, counts)
    | ok (p, pin) ↦ elim (admission counts pin) [
      | err code ↦ (ok (failure p.id code ∷ []), counts)
      | ok held ↦ (
        ok (
            prepared (prepared_of p pin)
            ∷ outcome_frame p.id (call f encode_success history pin p.id request first last)
            ∷ []),
        drop_permit held pin.binding.principal,
      )
    ]
  ]
