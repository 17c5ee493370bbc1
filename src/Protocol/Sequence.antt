-- ===== src/Protocol/Sequence.antt =====
-- The order of the messages of one connection, `Sequence` of crates/gaze-lens-protocol/src/wire.rs.
pub mod Exchange
pub mod Refusals
mod Tests
use gaze_lens.Prelude.{
  Bool, true, false, not, ◌&&◌, ◌==◌, Text-eq, Text-discrete, if◌then◌else◌, Text, List, [], ◌∷◌,
  Option, none, some, Result, ok, err, ◌>>=◌, ◌>>◌,
}
use gaze_lens.Protocol.Errors.{Checked, invalid_request, binding_changed}
use gaze_lens.Protocol.Bounds.{require}
use gaze_lens.Protocol.Wire.{
  Operation, Operation-eq, Operation-discrete, DestinationBinding, DestinationBinding-eq,
  DestinationBinding-discrete, Prepare, Prepared,
}
use gaze_lens.Protocol.Args.{Call, operation}
use gaze_lens.Protocol.Messages.{
  Codec, Success, Failure, encode_prepare, encode_prepared, encode_call, decode_success,
  decode_failure,
}

pub data State : Type 0 where
  fresh : State
  preparing : (id : Text) (wanted : Operation) → State
  prepared : (id : Text) (wanted : Operation) (binding : DestinationBinding) → State
  called : Call → State
  closed : State

-- The calls of the methods.
pub data Event : Type 0 where
  prepare : Prepare → Event
  prepared : Prepared → Event
  call : Call → Event
  success : Text → Event
  failure : Text → Event

pub data Reply (V : Type 0) : Type 0 where
  done : Reply V
  succeeded : Success V → Reply V
  failed : Failure → Reply V

-- `std::mem::replace(&mut self.state, State::Closed)`: an error leaves the state closed.
abbrev pub settle : {V : Type 0} → Checked State → State × Checked (Reply V)
settle (ok s) = (s, ok done)
settle (err e) = (State.closed, err e)

abbrev pub reply_with : {A V : Type 0} → (A → Reply V) → Checked A → Checked (Reply V)
reply_with make (ok a) = ok (make a)
reply_with make (err e) = err e

module _ {V : Type 0} (codec : Codec V) (check_value : V → Checked (Unit {0})) where
  unfoldable pub on_prepare : State → Prepare → Checked State
  unfolding encode_prepare
  on_prepare fresh p = do encode_prepare codec p; ok (preparing p.id p.operation)
  on_prepare _ p = err invalid_request

  unfoldable pub on_prepared : State → Prepared → Checked State
  unfolding encode_prepared Text-discrete Operation-discrete
  on_prepared (preparing id wanted) p = do
    encode_prepared codec p
    require (id == p.id && wanted == p.operation)
    ok (State.prepared id wanted p.binding)
  on_prepared _ p = err invalid_request

  unfoldable pub on_call : State → Call → Checked State
  unfolding encode_call Text-discrete Operation-discrete DestinationBinding-discrete operation
  on_call (State.prepared id wanted binding) c = do
    require (c.id == id && operation c.args == wanted)
    if not (c.binding == binding)
        then err binding_changed
        else do encode_call codec c; ok (called c)
  on_call _ c = err invalid_request

  unfoldable pub on_success : State → Text → Checked (Success V)
  unfolding decode_success
  on_success (called c) bytes = decode_success codec check_value bytes c
  on_success _ bytes = err invalid_request

  unfoldable pub on_failure : State → Text → Checked Failure
  unfolding decode_failure
  on_failure (preparing id wanted) bytes = decode_failure codec bytes id
  on_failure (State.prepared id wanted binding) bytes = decode_failure codec bytes id
  on_failure (called c) bytes = decode_failure codec bytes c.id
  on_failure _ bytes = err invalid_request

  unfoldable pub step : State → Event → State × Checked (Reply V)
  unfolding on_prepare on_prepared on_call on_success on_failure
  step s (prepare p) = settle (on_prepare s p)
  step s (Event.prepared p) = settle (on_prepared s p)
  step s (call c) = settle (on_call s c)
  step s (success bytes) = (closed, reply_with succeeded (on_success s bytes))
  step s (failure bytes) = (closed, reply_with failed (on_failure s bytes))

  -- The state after events that are all accepted.
  unfoldable pub accepts : State → List Event → Option State
  unfolding step
  accepts s [] = some s
  accepts s (e ∷ rest) = elim (step s e).1 [ err x ↦ none | ok r ↦ accepts (step s e).0 rest ]
