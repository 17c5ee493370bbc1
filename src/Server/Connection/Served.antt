-- ===== src/Server/Connection/Served.antt =====
-- What a connection sends, and that it gives its permit back.
use gaze_lens.Prelude.{
  ◌+◌, ◌-◌, ◌<◌, ◌≡◌, ◌≢◌, ◌⊎◌, refl, sym, ap, ◌∙◌, ◌==◌, ℕ_eq, ℕ_discrete, Text-eq, Text, List, [],
  ◌∷◌, some, ok, Result-cases, Bool-cases, Option-cases, arith, inl, inr,
}
use gaze_lens.Protocol.Errors.{Error, Checked}
use gaze_lens.Protocol.Wire.{Operation-eq, readiness, Prepare}
use gaze_lens.Protocol.Args.{Call}
use gaze_lens.Server.Auth.{Pinned}
use gaze_lens.Server.Startup.{Fingerprints, History}
use gaze_lens.Server.Connection.{
  Success, Counts, update, active_calls, acquire, drop_permit, Reading, Frame, prepared, failure,
  prepared_of, admission, outcome_frame, call, pin_at, connection,
}
use gaze_lens.Server.Connection.Admission.{stored, update_here, update_there, drop_stored, eq_self}
use gaze_lens.Server.Connection.Released.{IsReleased, IsReleased-call}

-- No principal is counted with no call.
abbrev pub AreCounts : Counts → Type 0
AreCounts counts = (id : Text) → counts id ≢ some 0

stored_of_counts :
    (counts : Counts) (id : Text) → AreCounts counts → stored (active_calls counts id) ≡ counts id
unfolding ℕ_discrete
stored_of_counts counts id sane = elim (Option-cases (counts id)) [
  | inl e ↦ let a : active_calls counts id ≡ 0 = ground arith in ap stored a ∙ sym e
  | inr (n, e) ↦ elim (Bool-cases (n == 0)) [
    | inl z ↦ absurd (sane id (let zero_n : n ≡ 0 = ground arith in e ∙ ap some zero_n))
    | inr z ↦ let a : active_calls counts id ≡ n = ground arith in rw (a, e) (rw z refl)
  ]
]

acquire_free :
    (counts held : Counts) (id : Text) → acquire counts id ≡ ok held → active_calls counts id < 2
unfolding acquire
acquire_free counts held id e = ground arith

-- Dropping the permit that was acquired leaves each count as it was.
drop_permit-acquire :
    (counts held : Counts) (id key : Text)
    → AreCounts counts
    → acquire counts id ≡ ok held
    → drop_permit held id key ≡ counts key
unfolding acquire
drop_permit-acquire counts held id key sane h =
    let n = active_calls counts id in
    let is : update counts id (some (n + 1)) ≡ held = ground arith in
    let at_id : held id ≡ some (n + 1) =
      ap (λ c. c id) (sym is) ∙ update_here counts id id (some (n + 1)) (eq_self id) in
    let dropped = ap (λ c. c key) (drop_stored held id (n + 1) at_id) in
    let less : n + 1 - 1 ≡ n = omega arith in
    elim (Bool-cases (key == id)) [
      | inl same ↦
          let is_key : id ≡ key = ground arith in
          dropped
          ∙ update_here held id key (stored (n + 1 - 1)) same
          ∙ ap stored less
          ∙ stored_of_counts counts id sane
          ∙ ap counts is_key
      | inr other ↦
          dropped
          ∙ update_there held id key (stored (n + 1 - 1)) other
          ∙ ap (λ c. c key) (sym is)
          ∙ update_there counts id key (some (n + 1)) other
    ]

module _ (sha256 : Text → Text) (f : Fingerprints) (encode_success : Success → Call → Checked Text)
    (history : History) (counts : Counts) (hello : Checked Prepare) (r : Reading)
    (request : Checked Call) (first last : Reading) where
  -- A refusal at admission, or Prepared and the outcome of the call.
  abbrev pub IsConversation : Prepare → Pinned → List Frame → Type 0
  IsConversation p pin frames =
      ((code : Error) × (frames ≡ failure p.id code ∷ []))
      ⊎ ((reply : Checked Text) × ((frames
              ≡ prepared (prepared_of p pin) ∷ outcome_frame p.id reply ∷ [])
            × ((pin.operation ≡ readiness)
                × ((active_calls counts pin.binding.principal < 2)
                    × ((bytes : Text)
                        → reply ≡ ok bytes
                        → IsReleased f encode_success history pin p.id request first last bytes)))))

  pub record IsServed (frames : List Frame) (after : Counts) : Type 0 where
    pub hello_of : Prepare
    pub pin : Pinned
    pub pinned : pin_at sha256 f history hello r ≡ ok (hello_of, pin)
    pub conversation : IsConversation hello_of pin frames
    pub restored : (id : Text) → after id ≡ counts id

  -- If no principal is counted with no call and a connection writes frames, then the authority that
  -- it read first authorized its Prepare, and either it wrote one failure, or Prepared and then the
  -- outcome, where the operation is readiness, the principal had fewer than two calls, and bytes are
  -- sent only as IsReleased says; when it ends every count is what it was before.
  pub IsServed-connection :
      (frames : List Frame) (after : Counts)
      → AreCounts counts
      → connection sha256 f encode_success history counts hello r request first last
        ≡ (ok frames, after)
      → IsServed frames after
  unfolding connection
  IsServed-connection frames after sane h = elim (Result-cases (pin_at sha256 f history hello r)) [
    | inl (e, bad) ↦ absurd (ground arith)
    | inr ((p, pin), good) ↦ elim (Result-cases (admission counts pin)) [
      | inl (code, no_permit) ↦
          let sent : failure p.id code ∷ [] ≡ frames = ground arith in
          let kept : counts ≡ after = ground arith in
          record {
            hello_of = p;
            pin = pin;
            pinned = good;
            conversation = inl (code, sym sent);
            restored = λ id. ap (λ c. c id) (sym kept);
          }
      | inr (held, permit) ↦
          let reply = call f encode_success history pin p.id request first last in
          let sent : prepared (prepared_of p pin) ∷ outcome_frame p.id reply ∷ [] ≡ frames =
            ground arith in
          let left : drop_permit held pin.binding.principal ≡ after = ground arith in
          let (ready, taken) = admitted pin held permit in
          record {
            hello_of = p;
            pin = pin;
            pinned = good;
            conversation = inr (
              reply,
              (
                sym sent,
                (
                  ready,
                  (
                    acquire_free counts held pin.binding.principal taken,
                    λ bytes e.
                        IsReleased-call f encode_success history pin p.id request first last bytes
                          e,
                  ),
                ),
              ),
            );
            restored = λ id.
                ap (λ c. c id) (sym left)
                ∙ drop_permit-acquire counts held pin.binding.principal id sane taken;
          }
    ]
  ]
    where
      admitted :
          (pin : Pinned) (held : Counts)
          → admission counts pin ≡ ok held
          → (pin.operation ≡ readiness) × (acquire counts pin.binding.principal ≡ ok held)
      admitted pin held e = elim (Bool-cases (pin.operation == readiness)) [
        | inl is ↦ (ground arith, ground arith)
        | inr not_is ↦ absurd (ground arith)
      ]
