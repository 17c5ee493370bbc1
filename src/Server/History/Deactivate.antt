-- ===== src/Server/History/Deactivate.antt =====
-- Retiring the last entry under an id.
use gaze_lens.Prelude.{
  ℕ, zero, suc, ◌≡◌, ◌≢◌, refl, sym, ap, ◌∙◌, false, List, [], ◌∷◌, Option, none, some, length, All,
  Pairs, In, All-mono, All-In, Text, Text-eq, arith, Option-cases, inl, inr, if◌then◌else◌,
}
use gaze_lens.Server.History.{Kind, Entry, rposition, entry_at, deactivate, has_id}
use gaze_lens.Server.History.Valid.{IsClear}

-- The position found is inside the list, and what stands there passes.
pub rposition-some :
    (id : Text) (xs : List Entry) (i : ℕ)
    → rposition (has_id id) xs ≡ some i
    → (e : Entry) × (entry_at xs i ≡ some e) × (e.identity.id ≡ id) × In e xs
unfolding rposition entry_at
rposition-some id [] i h = absurd (ground arith)
rposition-some id (x ∷ xs) i h = elim (Option-cases (rposition (has_id id) xs)) [
  | inl e ↦
      let here : (if has_id id x then some 0 else none) ≡ some i = rw (e, rposition) at h in
      (x, ground arith, ground arith, inl refl)
  | inr (j, e) ↦
      let (y, at, same, m) = rposition-some id xs j e in
      let there : i ≡ suc j = ground arith in (y, rw there at, same, inr m)
]

pub rposition-none :
    (id : Text) (xs : List Entry)
    → rposition (has_id id) xs ≡ none
    → All (λ x. x.identity.id ≢ id) xs
unfolding rposition
rposition-none id [] h = tt
rposition-none id (x ∷ xs) h = elim (Option-cases (rposition (has_id id) xs)) [
  | inl e ↦
      let here : ◌≡◌ {A = Option ℕ} (if has_id id x then some 0 else none) none =
        rw (e, rposition) at h in
      (ground arith, rposition-none id xs e)
  | inr (j, e) ↦
      let there : ◌≡◌ {A = Option ℕ} (some (suc j)) none = rw (e, rposition) at h in absurd (cc)
]

abbrev pub retired_entry : Entry → Entry
retired_entry e = record e { active = false }

module _ (P : Entry → Type 0) (stays : (e : Entry) → P e → P (retired_entry e)) where
  pub All-deactivate : (i : ℕ) (xs : List Entry) → All P xs → All P (deactivate i xs)
  unfolding deactivate
  All-deactivate zero [] h = tt
  All-deactivate (suc i) [] h = tt
  All-deactivate zero (x ∷ xs) (p, h) = (stays x p, h)
  All-deactivate (suc i) (x ∷ xs) (p, h) = (p, All-deactivate i xs h)

-- What is clear of an entry stays so when either is retired.
pub IsClear-retired_old : (x y : Entry) → IsClear x y → IsClear (retired_entry x) y
IsClear-retired_old x y c = record { fresh = c.fresh; retired = λ p. ((c.retired p).0, refl) }

pub IsClear-retired_new : (x y : Entry) → IsClear x y → IsClear x (retired_entry y)
IsClear-retired_new x y c = record { fresh = c.fresh; retired = c.retired }

pub Pairs-deactivate :
    (i : ℕ) (xs : List Entry) → Pairs IsClear xs → Pairs IsClear (deactivate i xs)
unfolding deactivate
Pairs-deactivate zero [] h = tt
Pairs-deactivate (suc i) [] h = tt
Pairs-deactivate zero (x ∷ xs) (p, h) = (All-mono (IsClear-retired_old x) xs p, h)
Pairs-deactivate (suc i) (x ∷ xs) (p, h) =
    (All-deactivate (IsClear x) (IsClear-retired_new x) i xs p, Pairs-deactivate i xs h)

pub length-deactivate : (i : ℕ) (xs : List Entry) → length (deactivate i xs) ≡ length xs
unfolding deactivate
length-deactivate zero [] = refl
length-deactivate (suc i) [] = refl
length-deactivate zero (x ∷ xs) = refl
length-deactivate (suc i) (x ∷ xs) = ap suc (length-deactivate i xs)

abbrev pub IsRetired : Text → Kind → Entry → Type 0
IsRetired id kind x = x.identity.id ≡ id → (x.identity.kind ≡ kind) × (x.active ≡ false)

no_id : (id : Text) (kind : Kind) (x : Entry) → x.identity.id ≢ id → IsRetired id kind x
no_id id kind x n = λ p. absurd (n p)

-- Once the last entry under an id is retired, so is every entry under it.
pub All-IsRetired :
    (id : Text) (kind : Kind) (xs : List Entry) (i : ℕ) (e : Entry)
    → Pairs IsClear xs
    → rposition (has_id id) xs ≡ some i
    → entry_at xs i ≡ some e
    → e.identity.kind ≡ kind
    → All (IsRetired id kind) (deactivate i xs)
unfolding rposition entry_at deactivate
All-IsRetired id kind [] i e p h at k = absurd (ground arith)
All-IsRetired id kind (x ∷ xs) i e (clear, p) h at k =
    elim (Option-cases (rposition (has_id id) xs)) [
      | inl none_left ↦
          let here : (if has_id id x then some 0 else none) ≡ some i =
            rw (none_left, rposition) at h in
          let first : i ≡ 0 = ground arith in
          let at' : some x ≡ some e = rw first at at in
          rw first (
            λ q. (ground arith, refl),
            All-mono (no_id id kind) xs (rposition-none id xs none_left),
          )
      | inr (j, found) ↦
          let (y, at_y, same, m) = rposition-some id xs j found in
          let there : i ≡ suc j = ground arith in
          let at' : entry_at xs j ≡ some e = rw there at at in
          let c : IsClear x y = All-In (IsClear x) xs clear m in
          let y_is_e : y ≡ e = ground arith in
          rw there (
            λ q. let r = c.retired (q ∙ sym same) in (ground arith, r.1),
            All-IsRetired id kind xs j e p found at' k,
          )
    ]
