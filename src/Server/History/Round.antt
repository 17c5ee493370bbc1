-- ===== src/Server/History/Round.antt =====
-- One round of the enrolment loop, by the three ways in which it succeeds.
use gaze_lens.Prelude.{
  ℕ, ◌+◌, ◌≤◌, ◌≡◌, ◌≢◌, Bool, true, false, List, [], ◌∷◌, ◌++◌, none, some, length, any, All, In,
  arith, ok, ◌>>=◌, Bool-cases, Option-cases, inl, inr, ◌==◌, Text-eq,
}
use gaze_lens.Server.History.{
  Identity, Entry, rposition, entry_at, deactivate, has_id, enroll_one, follow, push, plan_against,
}
use gaze_lens.Server.History.Deactivate.{rposition-some, length-deactivate}

abbrev pub new_entry : Identity → Entry
new_entry v = record { identity = v; active = true }

-- No entry has the generation of `v`, and there is room for one more.
pub record HasRoom (v : Identity) (xs : List Entry) : Type 0 where
  pub fresh : All (λ e. e.identity.generation ≢ v.generation) xs
  pub room : length xs + 1 ≤ 1024

pub data Round (xs : List Entry) (v : Identity) (ys : List Entry) (pushed : Bool) : Type 0 where
  kept :
      (e : Entry)
      → In e xs
      → e.identity ≡ v
      → e.active ≡ true
      → ys ≡ xs
      → pushed ≡ false
      → Round xs v ys pushed
  first :
      rposition (has_id v.id) xs ≡ none
      → HasRoom v xs
      → ys ≡ xs ++ new_entry v ∷ []
      → pushed ≡ true
      → Round xs v ys pushed
  replaced :
      (i : ℕ) (e : Entry)
      → rposition (has_id v.id) xs ≡ some i
      → entry_at xs i ≡ some e
      → e.identity.kind ≡ v.kind
      → e.active ≡ true
      → HasRoom v xs
      → ys ≡ deactivate i xs ++ new_entry v ∷ []
      → pushed ≡ true
      → Round xs v ys pushed

any_fresh :
    (v : Identity) (xs : List Entry)
    → any (λ e. e.identity.generation == v.generation) xs ≡ false
    → All (λ e. e.identity.generation ≢ v.generation) xs
any_fresh v [] h = tt
any_fresh v (x ∷ xs) h = (ground arith, any_fresh v xs (ground arith))

module _ (xs : List Entry) (v : Identity) {ys : List Entry} {pushed : Bool} where
  pub Round-enroll_one : enroll_one xs v ≡ ok (ys, pushed) → Round xs v ys pushed
  unfolding enroll_one
  Round-enroll_one h = elim (Option-cases (rposition (has_id v.id) xs)) [
    | inl e ↦
        let run : follow v none xs push ≡ ok (ys, pushed) = rw (e, enroll_one) at h in
        let stale : any (λ e. e.identity.generation == v.generation) xs ≡ false = ground arith in
        first e (record { fresh = any_fresh v xs stale; room = ground arith }) (ground arith)
          (ground arith)
    | inr (i, e) ↦
        let (old, at, same, m) = rposition-some v.id xs i e in
        let run : (plan_against v old >>= follow v (some i) xs) ≡ ok (ys, pushed) =
          rw (e, at, enroll_one) at h in
        elim (Bool-cases (old.identity.generation == v.generation)) [
          | inl again ↦ kept old m (ground arith) (ground arith) (ground arith) (ground arith)
          | inr other ↦
              let stale : any (λ e. e.identity.generation == v.generation) xs ≡ false =
                ground arith in
              replaced i old e at (ground arith) (ground arith)
                (record {
                  fresh = any_fresh v xs stale;
                  room = rw (← length-deactivate i xs) (ground arith);
                })
                (ground arith) (ground arith)
        ]
  ]
