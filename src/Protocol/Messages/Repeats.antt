-- ===== src/Protocol/Messages/Repeats.antt =====
-- What the messages that are decoded repeat, crates/gaze-lens-protocol/src/wire.rs.
use gaze_lens.Prelude.{
  ◌≡◌, ap, eq_true, sym, ◌∙◌, true, ◌&&◌, ◌==◌, Text-eq, Text, ok, ◌>>◌, Result-cases, bind_ok,
  seq_ok, ok_is, inl, inr, arith,
}
use gaze_lens.Protocol.Errors.{Checked}
use gaze_lens.Protocol.Bounds.{cap, result_bytes}
use gaze_lens.Protocol.Wire.{Operation-eq, DestinationBinding-eq}
use gaze_lens.Protocol.Args.{Call, operation}
use gaze_lens.Protocol.Results.{ResultBody, validate_for}
use gaze_lens.Protocol.Messages.{
  Codec, RawSuccess, Success, Failure, check_id, check_binding, check_reply, admit_success,
  read_body, decode_failure,
}

module _ {V : Type 0} (codec : Codec V) where
  pub failure_same :
      (bytes id : Text) (f : Failure) → decode_failure codec bytes id ≡ ok f → f.id ≡ id
  unfolding decode_failure
  failure_same bytes id f h = elim (Result-cases (codec.read_failure bytes)) [
    | inl (e, bad) ↦ absurd (ground arith)
    | inr (g, good) ↦
        let matched : (g.id == id) ≡ true = ground arith in
        let same : g ≡ f = ground arith in ap (λ x. x.id) (sym same) ∙ eq_true g.id id matched
  ]

module _ {V : Type 0} (codec : Codec V) (check_value : V → Checked (Unit {0})) where
  reply_same :
      (r : RawSuccess V) (c : Call)
      → check_reply r c ≡ ok tt
      → (r.id ≡ c.id) × ((r.operation ≡ operation c.args) × (r.binding ≡ c.binding))
  unfolding check_reply
  reply_same r c h =
      let matched : (r.id == c.id && r.operation == operation c.args) ≡ true = ground arith in
      let bound : (r.binding == c.binding) ≡ true = ground arith in
      let of_id : (r.id == c.id) ≡ true = ground arith in
      let of_operation : (r.operation == operation c.args) ≡ true = ground arith in
      (
        eq_true r.id c.id of_id,
        (eq_true r.operation (operation c.args) of_operation, eq_true r.binding c.binding bound),
      )

  pub admitted_same :
      (r : RawSuccess V) (c : Call)
      → admit_success r c ≡ ok tt
      → (r.id ≡ c.id) × ((r.operation ≡ operation c.args) × (r.binding ≡ c.binding))
  unfolding admit_success
  admitted_same r c h =
      let size = cap r.result_size result_bytes in
      let after_id =
        (seq_ok (check_id r.id) (check_binding r.binding >> (check_reply r c >> size)) tt h).1 in
      let after_binding =
        (seq_ok (check_binding r.binding) (check_reply r c >> size) tt after_id).1 in
      reply_same r c (seq_ok (check_reply r c) size tt after_binding).0

  pub body_same :
      (r : RawSuccess V) (c : Call) (s : Success V)
      → read_body codec check_value r c ≡ ok s
      → (s.id ≡ r.id)
        × ((s.operation ≡ r.operation)
            × ((s.binding ≡ r.binding)
                × (validate_for check_value (codec.body_size s.result) s.result c.args ≡ ok tt)))
  unfolding read_body
  body_same r c s h =
      let made : ResultBody V → Success V =
        λ b. record { id = r.id; operation = r.operation; binding = r.binding; result = b } in
      let fits : ResultBody V → Checked (Unit {0}) =
        λ b. validate_for check_value (codec.body_size b) b c.args in
      let (b, (read, rest)) = bind_ok r.result (λ b. fits b >> ok (made b)) s h in
      let parts = seq_ok (fits b) (ok (made b)) s rest in
      let is : made b ≡ s = ok_is (made b) s parts.1 in
      (
        ap (λ x. x.id) (sym is),
        (
          ap (λ x. x.operation) (sym is),
          (ap (λ x. x.binding) (sym is), ap (λ x. fits x.result) (sym is) ∙ parts.0),
        ),
      )
