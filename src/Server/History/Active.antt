-- ===== src/Server/History/Active.antt =====
-- After enrolment the active entries are the requested identities.
use gaze_lens.Prelude.{
  ℕ, zero, suc, ◌≡◌, ◌≢◌, refl, ◌↔◌, Bool, true, false, List, [], ◌∷◌, ◌++◌, ◌||◌, arith, ok,
  Result-cases, inl, inr, Bool-cases, some, In, All, All-In, Pairs, Pairs-In, any-In, In-any, Text,
  ◌==◌, Text-eq,
}
use gaze_lens.Server.History.{
  Identity, Entry, Ledger, entry_at, deactivate, enroll_one, enroll_all, retire, retires, requests,
  enroll,
}
use gaze_lens.Server.History.Deactivate.{rposition-some}
use gaze_lens.Server.History.Valid.{IsClear}
use gaze_lens.Server.History.Round.{new_entry, Round, kept, first, replaced, Round-enroll_one}
use gaze_lens.Server.History.Preserve.{
  Enrolled-enroll, AreShaped, IsSound, enroll_all-IsSound, retire-IsSound,
}

-- An active entry holds the identity.
abbrev pub IsLive : List Entry → Identity → Type 0
IsLive xs v = (e : Entry) × In e xs × (e.identity ≡ v) × (e.active ≡ true)

module _ {A : Type 0} where
  In-append_left : (a : A) (xs ys : List A) → In a xs → In a (xs ++ ys)
  In-append_left a [] ys m = absurd m
  In-append_left a (x ∷ xs) ys (inl e) = inl e
  In-append_left a (x ∷ xs) ys (inr m) = inr (In-append_left a xs ys m)

  In-append_last : (xs : List A) (a : A) → In a (xs ++ a ∷ [])
  In-append_last [] a = inl refl
  In-append_last (x ∷ xs) a = inr (In-append_last xs a)

In-deactivate :
    (id : Text) (i : ℕ) (xs : List Entry) (e x : Entry)
    → entry_at xs i ≡ some e
    → e.identity.id ≡ id
    → x.identity.id ≢ id
    → In x xs
    → In x (deactivate i xs)
unfolding entry_at deactivate
In-deactivate id i [] e x at same other m = absurd m
In-deactivate id zero (y ∷ xs) e x at same other (inl p) = absurd (ground arith)
In-deactivate id zero (y ∷ xs) e x at same other (inr m) = inr m
In-deactivate id (suc i) (y ∷ xs) e x at same other (inl p) = inl p
In-deactivate id (suc i) (y ∷ xs) e x at same other (inr m) =
    inr (In-deactivate id i xs e x at same other m)

module _ (xs : List Entry) (v : Identity) {ys : List Entry} {pushed : Bool} where
  IsLive-Round : Round xs v ys pushed → IsLive ys v
  IsLive-Round (kept e m same live eq flag) = (e, rw eq m, same, live)
  IsLive-Round (first e room eq flag) = (new_entry v, rw eq (In-append_last xs _), refl, refl)
  IsLive-Round (replaced i e found at kind live room eq flag) =
      (new_entry v, rw eq (In-append_last (deactivate i xs) _), refl, refl)

  IsLive-Round_other :
      (w : Identity) → w.id ≢ v.id → IsLive xs w → Round xs v ys pushed → IsLive ys w
  IsLive-Round_other w other (x, m, is, on) (kept e k same live eq flag) = (x, rw eq m, is, on)
  IsLive-Round_other w other (x, m, is, on) (first e room eq flag) =
      (x, rw eq (In-append_left x xs _ m), is, on)
  IsLive-Round_other w other (x, m, is, on) (replaced i e found at kind live room eq flag) =
      let (e', at', same, _) = rposition-some v.id xs i found in
      (
        x,
        rw eq (
            In-append_left x (deactivate i xs) _
              (In-deactivate v.id i xs e' x at' same (ground arith) m)),
        is,
        on,
      )

abbrev pub OtherIds : Identity → Identity → Type 0
OtherIds v w = v.id ≢ w.id

IsLive-enroll_all_other :
    (w : Identity) (xs : List Entry) (requested : List Identity) (flag : Bool) {ys : List Entry}
    {changed : Bool}
    → All (OtherIds w) requested
    → IsLive xs w
    → enroll_all xs requested flag ≡ ok (ys, changed)
    → IsLive ys w
unfolding enroll_all
IsLive-enroll_all_other w xs [] flag {ys = ys} a l h = let e : xs ≡ ys = ground arith in rw (← e) l
IsLive-enroll_all_other w xs (v ∷ rest) flag {ys = ys} {changed = changed} (p, a) l h =
    elim (Result-cases (enroll_one xs v)) [
      | inl (e, failed) ↦ absurd (ground arith)
      | inr ((zs, pushed), done) ↦
          let later : enroll_all zs rest (flag || pushed) ≡ ok (ys, changed) = ground arith in
          IsLive-enroll_all_other w zs rest (flag || pushed) a
            (IsLive-Round_other xs v w p l (Round-enroll_one xs v done)) later
    ]

pub IsLive-enroll_all :
    (xs : List Entry) (requested : List Identity) (flag : Bool) {ys : List Entry} {changed : Bool}
    → Pairs OtherIds requested
    → enroll_all xs requested flag ≡ ok (ys, changed)
    → All (IsLive ys) requested
unfolding enroll_all
IsLive-enroll_all xs [] flag a h = tt
IsLive-enroll_all xs (v ∷ rest) flag {ys = ys} {changed = changed} (p, a) h =
    elim (Result-cases (enroll_one xs v)) [
      | inl (e, failed) ↦ absurd (ground arith)
      | inr ((zs, pushed), done) ↦
          let later : enroll_all zs rest (flag || pushed) ≡ ok (ys, changed) = ground arith in
          (
            IsLive-enroll_all_other v zs rest (flag || pushed) p
                (IsLive-Round xs v (Round-enroll_one xs v done)) later,
            IsLive-enroll_all zs rest (flag || pushed) a later,
          )
    ]

requests-In :
    (e : Entry) (requested : List Identity) (v : Identity)
    → In v requested
    → e.identity ≡ v
    → requests requested e ≡ true
requests-In e requested v m same = any-In (λ v. v.id == e.identity.id) requested v m (ground arith)

In-retire :
    (requested : List Identity) (xs : List Entry) (e : Entry)
    → requests requested e ≡ true
    → In e xs
    → In e (retire requested xs)
unfolding retire
In-retire requested [] e h m = absurd m
In-retire requested (x ∷ xs) e h (inl p) = inl (ground arith)
In-retire requested (x ∷ xs) e h (inr m) = inr (In-retire requested xs e h m)

pub retire-requests :
    (requested : List Identity) (xs : List Entry) (e : Entry)
    → In e (retire requested xs)
    → e.active ≡ true
    → requests requested e ≡ true
unfolding retire
retire-requests requested [] e m on = absurd m
retire-requests requested (x ∷ xs) e (inl p) on = elim (Bool-cases (retires requested x)) [
  | inl gone ↦ absurd (ground arith)
  | inr here ↦ ground arith
]
retire-requests requested (x ∷ xs) e (inr m) on = retire-requests requested xs e m on

module _ (requested : List Identity) (ys : List Entry) where
  pub IsLive-of_requested :
      All (IsLive ys) requested → (v : Identity) → In v requested → IsLive (retire requested ys) v
  IsLive-of_requested l v m =
      let (e, k, same, on) = All-In (IsLive ys) requested l m in
      (e, In-retire requested ys e (requests-In e requested v m same) k, same, on)

  -- Two active entries under one id are one entry.
  requested_of_live :
      Pairs IsClear (retire requested ys)
      → ((v : Identity) → In v requested → IsLive (retire requested ys) v)
      → (v : Identity) → IsLive (retire requested ys) v
      → In v requested
  requested_of_live separate from v (e, k, is, on) =
      let (w, m, same) =
        In-any (λ w. w.id == e.identity.id) requested (retire-requests requested ys e k on) in
      let (e', k', is', on') = from w m in
      elim (Pairs-In IsClear (retire requested ys) separate k k') [
        | inl one ↦ let v_is_w : v ≡ w = cc in rw v_is_w m
        | inr (inl c) ↦ let off = c.retired (ground arith) in absurd (ground arith)
        | inr (inr c) ↦ let off = c.retired (ground arith) in absurd (ground arith)
      ]

-- If Ledger::enroll succeeds for well-shaped identities of which no two share an id, then an
-- identity is requested exactly when some active entry of the new ledger holds it.
pub IsLive-iff_requested :
    (json_size : Ledger → ℕ) (ledger ledger' : Ledger) (requested : List Identity) (changed : Bool)
    → AreShaped requested
    → Pairs OtherIds requested
    → enroll json_size ledger requested ≡ ok (ledger', changed)
    → (v : Identity) → IsLive ledger'.entries v ↔ In v requested
IsLive-iff_requested json_size ledger ledger' requested changed shapes apart h v =
    let run = Enrolled-enroll json_size ledger requested h in
    let ys = run.entries in
    let old : IsSound ledger.entries = record {
      size = run.valid.size;
      shaped = run.valid.shaped;
      separate = run.valid.separate;
    } in
    let sound =
      retire-IsSound requested ys
        (enroll_all-IsSound ledger.entries requested false shapes old run.rounds) in
    let all_live = IsLive-enroll_all ledger.entries requested false apart run.rounds in
    let from = IsLive-of_requested requested ys all_live in
    rw run.result (requested_of_live requested ys sound.separate from v, from v)
