-- ===== src/Protocol/Sequence/Tests.antt =====
-- An exchange from its Prepare to its success.
use gaze_lens.Prelude.{◌≡◌, refl, Text, codes, List, [], ◌∷◌, ◌++◌, some, ok, err}
use gaze_lens.Protocol.Errors.{Error, Checked, invalid_request}
use gaze_lens.Protocol.Wire.{Operation, DestinationBinding}
use gaze_lens.Protocol.Args.{Args}
use gaze_lens.Protocol.Results.{ResultBody}
use gaze_lens.Protocol.Messages.{Codec}
use gaze_lens.Protocol.Sequence.{State, Event, step, accepts, fresh, closed}
use gaze_lens.Protocol.Sequence.Exchange.{IsExchange, IsExchange-accepts}
use gaze_lens.Protocol.Sequence.Refusals.{refused_closes}

abbrev an_id : Text
an_id = codes "01ARZ3NDEKTSV4RRFFQ69G5FAV"

abbrev digest : Text
digest = codes "0123456789abcdef0123456789abcdef"

abbrev a_binding : DestinationBinding
a_binding = record {
  principal = digest;
  principal_generation = digest;
  resource = digest;
  resource_generation = digest;
}

abbrev any_value : Unit {0} → Checked (Unit {0})
any_value value = ok tt

-- Every message fits, and every frame holds the same success or failure.
abbrev a_codec : Codec (Unit {0})
a_codec = record {
  prepare_fits = λ p. ok tt;
  prepared_fits = λ p. ok tt;
  call_fits = λ c. ok tt;
  args_size = λ a. 2;
  body_size = λ b. 40;
  read_success = λ bytes. ok (record {
    id = an_id;
    operation = Operation.readiness;
    binding = a_binding;
    result_size = 40;
    result = ok ResultBody.readiness;
  });
  read_failure = λ bytes. ok (record { id = an_id; code = Error.unavailable });
}

abbrev a_prepare : Event
a_prepare = Event.prepare (record {
  id = an_id;
  credential = digest ++ digest;
  resource = codes "db";
  operation = Operation.readiness;
})

abbrev exchange : List Event
exchange =
    a_prepare
    ∷ Event.prepared (record { id = an_id; operation = Operation.readiness; binding = a_binding })
    ∷ Event.call (record { id = an_id; binding = a_binding; args = Args.readiness })
    ∷ Event.success []
    ∷ []

exchange_accepted : accepts a_codec any_value fresh exchange ≡ some closed
unfolding accepts
exchange_accepted = refl

twice : (step a_codec any_value State.closed a_prepare).1 ≡ err invalid_request
unfolding step
twice = refl

IsExchange-accepts_example : IsExchange a_codec any_value exchange
IsExchange-accepts_example = IsExchange-accepts a_codec any_value exchange closed exchange_accepted

refused_closes_example :
    step a_codec any_value (step a_codec any_value fresh (Event.success [])).0 a_prepare
    ≡ (closed, err invalid_request)
unfolding step
refused_closes_example =
    refused_closes a_codec any_value fresh (Event.success []) a_prepare invalid_request refl
