-- ===== src/Protocol/Messages.antt =====
-- The checks of the messages of a connection when they are encoded and decoded,
-- crates/gaze-lens-protocol/src/wire.rs. What serde_json reads and writes, in a frame, is given: a
-- message that fits its frame is read back as it is.
pub mod Repeats
use gaze_lens.Prelude.{
  ℕ, Bool, true, false, not, ◌&&◌, ◌||◌, ◌==◌, ℕ_eq, ℕ_discrete, Text-eq, Text-discrete, leb,
  if◌then◌else◌, Text, List, [], ◌∷◌, codes, length, any, all, is_digit, ok, err, ◌>>=◌, ◌>>◌,
}
use gaze_lens.Protocol.Errors.{Error, Checked, binding_changed}
use gaze_lens.Protocol.Bounds.{require, cap, configured_id, hex, request_bytes, result_bytes}
use gaze_lens.Protocol.Wire.{
  Operation, Operation-eq, Operation-discrete, DestinationBinding, DestinationBinding-eq,
  DestinationBinding-discrete, Prepare, Prepared,
}
use gaze_lens.Protocol.Args.{Args, Call, operation, validate}
use gaze_lens.Protocol.Results.{ResultBody, validate_for}

pub record Failure : Type 0 where
  pub id : Text
  pub code : Error

-- RawSuccess, with the size of its result and what serde_json makes of it.
pub record RawSuccess (V : Type 0) : Type 0 where
  pub id : Text
  pub operation : Operation
  pub binding : DestinationBinding
  pub result_size : ℕ
  pub result : Checked (ResultBody V)

pub record Success (V : Type 0) : Type 0 where
  pub id : Text
  pub operation : Operation
  pub binding : DestinationBinding
  pub result : ResultBody V

-- serde_json and the frame around its text: whether a message fits, the bytes of its arguments or
-- of a result, and what a frame holds.
pub record Codec (V : Type 0) : Type 0 where
  pub prepare_fits : Prepare → Checked (Unit {0})
  pub prepared_fits : Prepared → Checked (Unit {0})
  pub call_fits : Call → Checked (Unit {0})
  pub args_size : Args → ℕ
  pub body_size : ResultBody V → ℕ
  pub read_success : Text → Checked (RawSuccess V)
  pub read_failure : Text → Checked Failure

abbrev pub id_alphabet : Text
id_alphabet = codes "0123456789ABCDEFGHJKMNPQRSTVWXYZ"

abbrev pub starts_low : Text → Bool
starts_low [] = false
starts_low (b ∷ rest) = leb b b'7'

unfoldable pub check_id : Text → Checked (Unit {0})
unfolding ℕ_discrete
check_id id =
    require (length id == 26 && starts_low id && all (λ b. any (λ c. b == c) id_alphabet) id)

-- DestinationBinding::validate
unfoldable pub check_binding : DestinationBinding → Checked (Unit {0})
unfolding hex
check_binding b = do
  require (hex b.principal 32)
  require (hex b.principal_generation 32)
  require (hex b.resource 32)
  require (hex b.resource_generation 32)

abbrev pub is_hexdigit : ℕ → Bool
is_hexdigit b = is_digit b || leb b'a' b && leb b b'f' || leb b'A' b && leb b b'F'

-- decode_prepare, of the message that was read.
unfoldable pub check_prepare : Prepare → Checked (Unit {0})
unfolding check_id configured_id ℕ_discrete
check_prepare p = do
  check_id p.id
  configured_id p.resource
  require (length p.credential == 64 && all is_hexdigit p.credential)

-- decode_prepared, of the message that was read.
unfoldable pub check_prepared : Prepared → Checked (Unit {0})
unfolding check_id check_binding
check_prepared p = do check_id p.id; check_binding p.binding

module _ {V : Type 0} where
  unfoldable pub check_reply : RawSuccess V → Call → Checked (Unit {0})
  unfolding Text-discrete Operation-discrete DestinationBinding-discrete operation
  check_reply r call = do
    require (r.id == call.id && r.operation == operation call.args)
    if not (r.binding == call.binding) then err binding_changed else ok tt

  -- decode_success up to the result.
  unfoldable pub admit_success : RawSuccess V → Call → Checked (Unit {0})
  unfolding check_id check_binding check_reply
  admit_success r call = do
    check_id r.id
    check_binding r.binding
    check_reply r call
    cap r.result_size result_bytes

module _ {V : Type 0} (codec : Codec V) where
  unfoldable pub encode_prepare : Prepare → Checked (Unit {0})
  unfolding check_prepare
  encode_prepare p = do codec.prepare_fits p; check_prepare p

  unfoldable pub encode_prepared : Prepared → Checked (Unit {0})
  unfolding check_prepared
  encode_prepared p = do codec.prepared_fits p; check_prepared p

  -- decode_call, of the message that was read.
  unfoldable pub check_call : Call → Checked (Unit {0})
  unfolding check_id check_binding validate
  check_call c = do
    check_id c.id
    check_binding c.binding
    cap (codec.args_size c.args) request_bytes
    validate c.args

  unfoldable pub encode_call : Call → Checked (Unit {0})
  unfolding check_call
  encode_call c = do
    validate c.args
    cap (codec.args_size c.args) request_bytes
    codec.call_fits c
    check_call c

  unfoldable pub read_body : (V → Checked (Unit {0})) → RawSuccess V → Call → Checked (Success V)
  unfolding validate_for
  read_body check_value r call = do
    body ← r.result
    validate_for check_value (codec.body_size body) body call.args
    ok (record { id = r.id; operation = r.operation; binding = r.binding; result = body })

  unfoldable pub decode_success : (V → Checked (Unit {0})) → Text → Call → Checked (Success V)
  unfolding admit_success read_body
  decode_success check_value bytes call = do
    r ← codec.read_success bytes
    admit_success r call
    read_body check_value r call

  unfoldable pub decode_failure : Text → Text → Checked Failure
  unfolding check_id Text-discrete
  decode_failure bytes expected_id = do
    f ← codec.read_failure bytes
    check_id f.id
    require (f.id == expected_id)
    ok f
