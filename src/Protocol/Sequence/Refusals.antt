-- ===== src/Protocol/Sequence/Refusals.antt =====
-- What `Sequence` of crates/gaze-lens-protocol/src/wire.rs does after an error.
use gaze_lens.Prelude.{◌≡◌, refl, ok, err, arith}
use gaze_lens.Protocol.Errors.{Error, Checked, invalid_request}
use gaze_lens.Protocol.Messages.{Codec}
use gaze_lens.Protocol.Sequence.{
  State, Event, closed, settle, on_prepare, on_prepared, on_call, on_success, on_failure, step,
}

module _ {V : Type 0} (codec : Codec V) (check_value : V → Checked (Unit {0})) where
  closed_step : (e : Event) → step codec check_value closed e ≡ (closed, err invalid_request)
  unfolding step on_prepare on_prepared on_call on_success on_failure
  closed_step (Event.prepare p) = refl
  closed_step (Event.prepared p) = refl
  closed_step (Event.call c) = refl
  closed_step (Event.success b) = refl
  closed_step (Event.failure b) = refl

  settle_closes :
      (m : Checked State) (x : Error) → (settle {V = V} m).1 ≡ err x → (settle {V = V} m).0 ≡ closed
  settle_closes (ok s) x h = absurd (ground arith)
  settle_closes (err e) x h = refl

  step_closes :
      (s : State) (e : Event) (x : Error)
      → (step codec check_value s e).1 ≡ err x
      → (step codec check_value s e).0 ≡ closed
  unfolding step
  step_closes s (Event.prepare p) x h = settle_closes (on_prepare codec check_value s p) x h
  step_closes s (Event.prepared p) x h = settle_closes (on_prepared codec check_value s p) x h
  step_closes s (Event.call c) x h = settle_closes (on_call codec check_value s c) x h
  step_closes s (Event.success b) x h = refl
  step_closes s (Event.failure b) x h = refl

  -- Once a Sequence has refused an event, whatever the state and the error, it refuses every later
  -- one as an invalid request and stays closed.
  pub refused_closes :
      (s : State) (e later : Event) (x : Error)
      → (step codec check_value s e).1 ≡ err x
      → step codec check_value (step codec check_value s e).0 later ≡ (closed, err invalid_request)
  refused_closes s e later x h = rw (step_closes s e x h) (closed_step later)
