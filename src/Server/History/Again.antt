-- ===== src/Server/History/Again.antt =====
-- A restart with the same identities changes nothing.
use gaze_lens.Prelude.{
  ℕ, suc, ◌≡◌, ◌≢◌, refl, ap, ◌∙◌, ◌⊎◌, Bool, true, false, List, [], ◌∷◌, ◌||◌, arith, ok, inl, inr,
  Bool-cases, Option-cases, none, some, In, All, All-In, Pairs, any, Text, if◌then◌else◌,
}
use gaze_lens.Server.History.{
  Identity, Entry, Ledger, rposition, has_id, entry_at, enroll_one, enroll_all, retire, retires,
  enroll,
}
use gaze_lens.Server.History.Valid.{IsClear, validate_iff}
use gaze_lens.Server.History.Deactivate.{rposition-some, rposition-none}
use gaze_lens.Server.History.Preserve.{Enrolled-enroll, AreShaped, validate-enroll}
use gaze_lens.Server.History.Active.{IsLive, OtherIds, IsLive-iff_requested}

-- Under its id an entry is the last one, or clear of it.
rposition_last :
    (id : Text) (xs : List Entry) (i : ℕ) (old e : Entry)
    → Pairs IsClear xs
    → rposition (has_id id) xs ≡ some i
    → entry_at xs i ≡ some old
    → In e xs
    → e.identity.id ≡ id
    → (e ≡ old) ⊎ IsClear e old
unfolding rposition entry_at
rposition_last id [] i old e p h at m same = absurd m
rposition_last id (x ∷ xs) i old e (clear, p) h at (inl q) same =
    elim (Option-cases (rposition (has_id id) xs)) [
      | inl nothing ↦
          let here : (if has_id id x then some 0 else none) ≡ some i =
            rw (nothing, rposition) at h in
          let first : i ≡ 0 = ground arith in
          let at' : some x ≡ some old = rw first at at in inl (cc)
      | inr (j, found) ↦
          let (y, at_y, y_id, k) = rposition-some id xs j found in
          let there : i ≡ suc j = ground arith in
          let at' : entry_at xs j ≡ some old = rw there at at in
          let y_is_old : y ≡ old = ground arith in
          inr (rw (q, ← y_is_old) (All-In (IsClear x) xs clear k))
    ]
rposition_last id (x ∷ xs) i old e (clear, p) h at (inr n) same =
    elim (Option-cases (rposition (has_id id) xs)) [
      | inl nothing ↦
          absurd (All-In (λ z. z.identity.id ≢ id) xs (rposition-none id xs nothing) n same)
      | inr (j, found) ↦
          let there : i ≡ suc j = ground arith in
          let at' : entry_at xs j ≡ some old = rw there at at in
          rposition_last id xs j old e p found at' n same
    ]

-- A round for an identity that is live changes nothing.
enroll_one-live :
    (xs : List Entry) (v : Identity)
    → Pairs IsClear xs
    → IsLive xs v
    → enroll_one xs v ≡ ok (xs, false)
unfolding enroll_one
enroll_one-live xs v p (e, m, is, on) = elim (Option-cases (rposition (has_id v.id) xs)) [
  | inl nothing ↦ absurd (
      All-In (λ z. z.identity.id ≢ v.id) xs (rposition-none v.id xs nothing) m
        (ap (λ (w : Identity). w.id) is))
  | inr (i, found) ↦
      let (old, at, same, k) = rposition-some v.id xs i found in
      elim (rposition_last v.id xs i old e p found at m (ap (λ (w : Identity). w.id) is)) [
        | inl one ↦
            let live : old.active ≡ true = rw (← one) on in
            let holds : old.identity ≡ v = rw (← one) is in
            rw (found, at, enroll_one) (ground arith)
        | inr c ↦ let off = c.retired (ground arith) in absurd (ground arith)
      ]
]

enroll_all-live :
    (xs : List Entry) (requested : List Identity) (flag : Bool)
    → Pairs IsClear xs
    → All (IsLive xs) requested
    → enroll_all xs requested flag ≡ ok (xs, flag)
unfolding enroll_all
enroll_all-live xs [] flag p h = refl
enroll_all-live xs (v ∷ rest) flag p (l, h) =
    rw (enroll_one-live xs v p l) (enroll_all-live xs rest (flag || false) p h ∙ ground arith)

All-IsLive :
    (xs : List Entry) (requested : List Identity)
    → ((v : Identity) → In v requested → IsLive xs v)
    → All (IsLive xs) requested
All-IsLive xs [] f = tt
All-IsLive xs (v ∷ rest) f = (f v (inl refl), All-IsLive xs rest (λ w m. f w (inr m)))

-- `retire` leaves nothing for a second `retire` to do.
retires-retire :
    (requested : List Identity) (xs : List Entry)
    → any (retires requested) (retire requested xs) ≡ false
unfolding retire
retires-retire requested [] = refl
retires-retire requested (x ∷ xs) = elim (Bool-cases (retires requested x)) [
  | inl gone ↦ rw gone (retires-retire requested xs)
  | inr here ↦ rw (here, here) (retires-retire requested xs)
]

retire_idem :
    (requested : List Identity) (xs : List Entry)
    → retire requested (retire requested xs) ≡ retire requested xs
unfolding retire
retire_idem requested [] = refl
retire_idem requested (x ∷ xs) = elim (Bool-cases (retires requested x)) [
  | inl gone ↦ rw gone (rw (retire_idem requested xs))
  | inr here ↦ rw (here, here) (rw (retire_idem requested xs))
]

-- If Ledger::enroll succeeds for well-shaped identities of which no two share an id, then a second
-- enrolment of the same identities succeeds, leaves the ledger as it is and reports no change.
pub enroll-enroll :
    (json_size : Ledger → ℕ) (ledger ledger' : Ledger) (requested : List Identity) (changed : Bool)
    → AreShaped requested
    → Pairs OtherIds requested
    → enroll json_size ledger requested ≡ ok (ledger', changed)
    → enroll json_size ledger' requested ≡ ok (ledger', false)
unfolding enroll
enroll-enroll json_size ledger ledger' requested changed shapes apart h =
    let run = Enrolled-enroll json_size ledger requested h in
    let good = validate-enroll json_size ledger ledger' requested changed shapes h in
    let live = IsLive-iff_requested json_size ledger ledger' requested changed shapes apart h in
    let valid = (validate_iff ledger').0 good in
    let same = ap (λ (l : Ledger). l.entries) run.result in
    let settled : retire requested ledger'.entries ≡ ledger'.entries =
      rw same (retire_idem requested run.entries) in
    let none_left : any (retires requested) ledger'.entries ≡ false =
      rw same (retires-retire requested run.entries) in
    let rounds =
      enroll_all-live ledger'.entries requested false valid.separate
        (All-IsLive ledger'.entries requested (λ v. (live v).1)) in
    rw (good, rounds, settled, none_left) (ground (arith, run.fits))
