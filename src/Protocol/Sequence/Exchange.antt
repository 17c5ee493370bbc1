-- ===== src/Protocol/Sequence/Exchange.antt =====
-- The exchanges that `Sequence` of crates/gaze-lens-protocol/src/wire.rs accepts.
use gaze_lens.Prelude.{
  ◌≡◌, refl, ap, eq_true, sym, ◌∙◌, inl, inr, Bool, true, false, not, ◌&&◌, ◌==◌, Text-eq,
  if◌then◌else◌, Text, List, [], ◌∷◌, Option, none, some, ok, err, ◌>>◌, Result-cases, bind_ok,
  seq_ok, ok_is, arith,
}
use gaze_lens.Protocol.Errors.{Checked, invalid_request, binding_changed}
use gaze_lens.Protocol.Bounds.{require}
use gaze_lens.Protocol.Wire.{
  Operation, Operation-eq, DestinationBinding, DestinationBinding-eq, Prepare, Prepared,
}
use gaze_lens.Protocol.Args.{Call, operation}
use gaze_lens.Protocol.Results.{validate_for}
use gaze_lens.Protocol.Messages.{
  Codec, encode_prepare, encode_prepared, encode_call, admit_success, read_body, Success, Failure,
  decode_success, decode_failure,
}
use gaze_lens.Protocol.Messages.Repeats.{failure_same, admitted_same, body_same}
use gaze_lens.Protocol.Sequence.{
  State, Event, fresh, closed, preparing, called, settle, on_prepare, on_prepared, on_call,
  on_success, on_failure, step, accepts,
}

both_left : (a b : Bool) → require (a && b) ≡ ok tt → a ≡ true
both_left true b h = refl
both_left false b h = absurd (ground arith)

both_right : (a b : Bool) → require (a && b) ≡ ok tt → b ≡ true
both_right true true h = refl
both_right true false h = absurd (ground arith)
both_right false b h = absurd (ground arith)

bound_is :
    (b : Bool) (last : Checked State) (t : State)
    → (if not b then err binding_changed else last) ≡ ok t
    → (b ≡ true) × (last ≡ ok t)
bound_is true last t h = (refl, h)
bound_is false last t h = absurd (ground arith)

module _ {V : Type 0} (codec : Codec V) (check_value : V → Checked (Unit {0})) where
  -- The last event: a failure of the exchange's id.
  abbrev pub IsFailure : Text → Text → Type 0
  IsFailure id bytes = (f : Failure) × ((decode_failure codec bytes id ≡ ok f) × (f.id ≡ id))

  -- The last event: a success that repeats the call's id, operation and binding, and whose result
  -- is one for its arguments.
  abbrev pub IsAnswer : Call → Text → Type 0
  IsAnswer c bytes =
      (s : Success V) × ((decode_success codec check_value bytes c ≡ ok s)
        × ((s.id ≡ c.id)
            × ((s.operation ≡ operation c.args)
                × ((s.binding ≡ c.binding)
                    × (validate_for check_value (codec.body_size s.result) s.result c.args
                        ≡ ok tt)))))

  abbrev pub IsCalled : Call → List Event → Type 0
  IsCalled c [] = Unit
  IsCalled c (Event.success bytes ∷ rest) = IsAnswer c bytes × (rest ≡ [])
  IsCalled c (Event.failure bytes ∷ rest) = IsFailure c.id bytes × (rest ≡ [])
  IsCalled c (_ ∷ rest) = ⊥

  abbrev pub IsPrepared : Text → Operation → DestinationBinding → List Event → Type 0
  IsPrepared id wanted binding [] = Unit
  IsPrepared id wanted binding (Event.call c ∷ rest) =
      (c.id ≡ id) × ((operation c.args ≡ wanted) × ((c.binding ≡ binding) × IsCalled c rest))
  IsPrepared id wanted binding (Event.failure bytes ∷ rest) = IsFailure id bytes × (rest ≡ [])
  IsPrepared id wanted binding (_ ∷ rest) = ⊥

  abbrev pub IsPreparing : Text → Operation → List Event → Type 0
  IsPreparing id wanted [] = Unit
  IsPreparing id wanted (Event.prepared p ∷ rest) =
      (p.id ≡ id) × ((p.operation ≡ wanted) × IsPrepared id wanted p.binding rest)
  IsPreparing id wanted (Event.failure bytes ∷ rest) = IsFailure id bytes × (rest ≡ [])
  IsPreparing id wanted (_ ∷ rest) = ⊥

  -- The beginnings of one exchange: Prepare, Prepared, Call and its success, with a failure in
  -- place of any but the first.
  abbrev pub IsExchange : List Event → Type 0
  IsExchange [] = Unit
  IsExchange (Event.prepare p ∷ rest) = IsPreparing p.id p.operation rest
  IsExchange (_ ∷ rest) = ⊥

  closed_refuses : (e : Event) → (step codec check_value closed e).1 ≡ err invalid_request
  unfolding step on_prepare on_prepared on_call on_success on_failure
  closed_refuses (Event.prepare p) = refl
  closed_refuses (Event.prepared p) = refl
  closed_refuses (Event.call c) = refl
  closed_refuses (Event.success b) = refl
  closed_refuses (Event.failure b) = refl

  closed_accepts :
      (es : List Event) (s : State) → accepts codec check_value closed es ≡ some s → es ≡ []
  unfolding accepts
  closed_accepts [] s h = refl
  closed_accepts (e ∷ es) s h = absurd (ground (arith, closed_refuses e))

  success_same :
      (bytes : Text) (c : Call) (s : Success V)
      → decode_success codec check_value bytes c ≡ ok s
      → IsAnswer c bytes
  unfolding decode_success
  success_same bytes c s h =
      let read =
        bind_ok (codec.read_success bytes)
          (λ r. admit_success r c >> read_body codec check_value r c) s h in
      let (r, (good, rest)) = read in
      let parts = seq_ok (admit_success r c) (read_body codec check_value r c) s rest in
      let same = admitted_same codec check_value r c parts.0 in
      let body = body_same codec check_value r c s parts.1 in
      (s, (h, (body.0 ∙ same.0, (body.1.0 ∙ same.1.0, (body.1.1.0 ∙ same.1.1, body.1.1.1)))))

  called_accepts :
      (c : Call) (es : List Event) (s : State)
      → accepts codec check_value (called c) es ≡ some s
      → IsCalled c es
  unfolding accepts step
  called_accepts c [] s h = tt
  called_accepts c (Event.prepare p ∷ es) s h = absurd (ground arith)
  called_accepts c (Event.prepared p ∷ es) s h = absurd (ground arith)
  called_accepts c (Event.call c' ∷ es) s h = absurd (ground arith)
  called_accepts c (Event.success b ∷ es) s h =
      elim (Result-cases (decode_success codec check_value b c)) [
        | inl (e, bad) ↦ absurd (ground arith)
        | inr (r, good) ↦ (success_same b c r good, closed_accepts es s (ground arith))
      ]
  called_accepts c (Event.failure b ∷ es) s h = elim (Result-cases (decode_failure codec b c.id)) [
    | inl (e, bad) ↦ absurd (ground arith)
    | inr (f, good) ↦
        ((f, (good, failure_same codec b c.id f good)), closed_accepts es s (ground arith))
  ]

  -- The events after one that settles the state.
  abbrev after : Checked State → List Event → Option State
  after m es = elim ((settle {V = V} m).1) [
    | err x ↦ none
    | ok r ↦ accepts codec check_value ((settle {V = V} m).0) es
  ]

  settled :
      (m : Checked State) (es : List Event) (s : State)
      → after m es ≡ some s
      → (t : State) × ((m ≡ ok t) × (accepts codec check_value t es ≡ some s))
  settled (ok t) es s h = (t, (refl, h))
  settled (err e) es s h = absurd (ground arith)

  prepare_same :
      (p : Prepare) (t : State)
      → on_prepare codec check_value fresh p ≡ ok t
      → preparing p.id p.operation ≡ t
  unfolding on_prepare
  prepare_same p t h =
      ok_is (preparing p.id p.operation) t
        (seq_ok (encode_prepare codec p) (ok (preparing p.id p.operation)) t h).1

  prepared_same :
      (id : Text) (wanted : Operation) (p : Prepared) (t : State)
      → on_prepared codec check_value (preparing id wanted) p ≡ ok t
      → (p.id ≡ id) × ((p.operation ≡ wanted) × (State.prepared id wanted p.binding ≡ t))
  unfolding on_prepared
  prepared_same id wanted p t h =
      let next = State.prepared id wanted p.binding in
      let matches = require (id == p.id && wanted == p.operation) in
      let checked = (seq_ok (encode_prepared codec p) (matches >> ok next) t h).1 in
      let parts = seq_ok matches (ok next) t checked in
      let of_id : (id == p.id) ≡ true = both_left (id == p.id) (wanted == p.operation) parts.0 in
      let of_operation : (wanted == p.operation) ≡ true =
        both_right (id == p.id) (wanted == p.operation) parts.0 in
      (
        sym (eq_true id p.id of_id),
        (sym (eq_true wanted p.operation of_operation), ok_is next t parts.1),
      )

  call_same :
      (id : Text) (wanted : Operation) (binding : DestinationBinding) (c : Call) (t : State)
      → on_call codec check_value (State.prepared id wanted binding) c ≡ ok t
      → (c.id ≡ id) × ((operation c.args ≡ wanted) × ((c.binding ≡ binding) × (called c ≡ t)))
  unfolding on_call
  call_same id wanted binding c t h =
      let matches = require (c.id == id && operation c.args == wanted) in
      let last : Checked State = encode_call codec c >> ok (called c) in
      let rest : Checked State = if not (c.binding == binding) then err binding_changed else last in
      let parts = seq_ok matches rest t h in
      let bound = bound_is (c.binding == binding) last t parts.1 in
      let of_id : (c.id == id) ≡ true =
        both_left (c.id == id) (operation c.args == wanted) parts.0 in
      let of_operation : (operation c.args == wanted) ≡ true =
        both_right (c.id == id) (operation c.args == wanted) parts.0 in
      (
        eq_true c.id id of_id,
        (
          eq_true (operation c.args) wanted of_operation,
          (
            eq_true c.binding binding bound.0,
            ok_is (called c) t (seq_ok (encode_call codec c) (ok (called c)) t bound.1).1,
          ),
        ),
      )

  prepared_accepts :
      (id : Text) (wanted : Operation) (binding : DestinationBinding) (es : List Event) (s : State)
      → accepts codec check_value (State.prepared id wanted binding) es ≡ some s
      → IsPrepared id wanted binding es
  unfolding accepts step
  prepared_accepts id wanted binding [] s h = tt
  prepared_accepts id wanted binding (Event.prepare p ∷ es) s h = absurd (ground arith)
  prepared_accepts id wanted binding (Event.prepared p ∷ es) s h = absurd (ground arith)
  prepared_accepts id wanted binding (Event.success b ∷ es) s h = absurd (ground arith)
  prepared_accepts id wanted binding (Event.call c ∷ es) s h =
      let (t, (good, on)) =
        settled (on_call codec check_value (State.prepared id wanted binding) c) es s h in
      let same = call_same id wanted binding c t good in
      (
        same.0,
        (
          same.1.0,
          (
            same.1.1.0,
            called_accepts c es s (ap (λ x. accepts codec check_value x es) same.1.1.1 ∙ on),
          ),
        ),
      )
  prepared_accepts id wanted binding (Event.failure b ∷ es) s h =
      elim (Result-cases (decode_failure codec b id)) [
        | inl (e, bad) ↦ absurd (ground arith)
        | inr (f, good) ↦
            ((f, (good, failure_same codec b id f good)), closed_accepts es s (ground arith))
      ]

  preparing_accepts :
      (id : Text) (wanted : Operation) (es : List Event) (s : State)
      → accepts codec check_value (preparing id wanted) es ≡ some s
      → IsPreparing id wanted es
  unfolding accepts step
  preparing_accepts id wanted [] s h = tt
  preparing_accepts id wanted (Event.prepare p ∷ es) s h = absurd (ground arith)
  preparing_accepts id wanted (Event.prepared p ∷ es) s h =
      let (t, (good, on)) =
        settled (on_prepared codec check_value (preparing id wanted) p) es s h in
      let same = prepared_same id wanted p t good in
      (
        same.0,
        (
          same.1.0,
          prepared_accepts id wanted p.binding es s
              (ap (λ x. accepts codec check_value x es) same.1.1 ∙ on),
        ),
      )
  preparing_accepts id wanted (Event.success b ∷ es) s h = absurd (ground arith)
  preparing_accepts id wanted (Event.call c ∷ es) s h = absurd (ground arith)
  preparing_accepts id wanted (Event.failure b ∷ es) s h =
      elim (Result-cases (decode_failure codec b id)) [
        | inl (e, bad) ↦ absurd (ground arith)
        | inr (f, good) ↦
            ((f, (good, failure_same codec b id f good)), closed_accepts es s (ground arith))
      ]

  -- Whatever its codec, a fresh Sequence accepts only the beginnings of one exchange: Prepare, then
  -- Prepared with its id and operation, then Call with the same and the binding of Prepared, then a
  -- success that repeats all three and whose result is one for the arguments of the Call; a
  -- failure of the id may stand in place of each but the first; and nothing follows the end.
  pub IsExchange-accepts :
      (es : List Event) (s : State) → accepts codec check_value fresh es ≡ some s → IsExchange es
  unfolding accepts step
  IsExchange-accepts [] s h = tt
  IsExchange-accepts (Event.prepare p ∷ es) s h =
      let (t, (good, on)) = settled (on_prepare codec check_value fresh p) es s h in
      preparing_accepts p.id p.operation es s
        (ap (λ x. accepts codec check_value x es) (prepare_same p t good) ∙ on)
  IsExchange-accepts (Event.prepared p ∷ es) s h = absurd (ground arith)
  IsExchange-accepts (Event.call c ∷ es) s h = absurd (ground arith)
  IsExchange-accepts (Event.success b ∷ es) s h = absurd (ground arith)
  IsExchange-accepts (Event.failure b ∷ es) s h = absurd (ground arith)
