-- ===== src/Server/Connection/Admission.antt =====
-- How many calls of one principal run at a time.
use gaze_lens.Prelude.{
  ℕ, ◌+◌, ◌-◌, ◌≤◌, ◌<◌, ◌≡◌, refl, sym, ap, ◌∙◌, true, false, ◌==◌, ℕ_eq, ℕ_discrete, Text-eq,
  Text-discrete, if◌then◌else◌, Text, List, [], ◌∷◌, ◌++◌, Option, none, some, ok, Bool-cases,
  arith, inl, inr,
}
use gaze_lens.Server.Connection.{Counts, update, active_calls, acquire, drop_permit}

abbrev pub occurrences : Text → List Text → ℕ
occurrences id [] = 0
occurrences id (r ∷ rs) = (if id == r then 1 else 0) + occurrences id rs

-- The counts that connections can leave, with the principals of the permits that are held: one is
-- acquired, or any one of them is dropped.
pub data Reachable : Counts → List Text → Type 0 where
  start : Reachable (λ id. none) []
  admit :
      (counts next : Counts) (held : List Text) (id : Text)
      → Reachable counts held
      → acquire counts id ≡ ok next
      → Reachable next (id ∷ held)
  leave :
      (counts : Counts) (before after : List Text) (id : Text)
      → Reachable counts (before ++ id ∷ after)
      → Reachable (drop_permit counts id) (before ++ after)

abbrev pub stored : ℕ → Option ℕ
stored n = if n == 0 then none else some n

pub record Agrees (counts : Counts) (held : List Text) (id : Text) : Type 0 where
  pub entry : counts id ≡ stored (occurrences id held)
  pub bounded : occurrences id held ≤ 2

active_of_stored :
    (counts : Counts) (id : Text) (n : ℕ) → counts id ≡ stored n → active_calls counts id ≡ n
unfolding ℕ_discrete
active_of_stored counts id n h = elim (Bool-cases (n == 0)) [
  | inl e ↦ let m : counts id ≡ none = ground arith in ground arith
  | inr e ↦ let m : counts id ≡ some n = ground arith in ground arith
]

occurrences-middle :
    (id r : Text) (before after : List Text)
    → occurrences id (before ++ r ∷ after)
      ≡ (if id == r then 1 else 0) + occurrences id (before ++ after)
occurrences-middle id r [] after = refl
occurrences-middle id r (b ∷ before) after =
    let ih = occurrences-middle id r before after in omega (arith, ih)

pub update_here :
    (counts : Counts) (id key : Text) (v : Option ℕ)
    → (key == id) ≡ true
    → update counts id v key ≡ v
unfolding update
update_here counts id key v same = rw same refl

pub update_there :
    (counts : Counts) (id key : Text) (v : Option ℕ)
    → (key == id) ≡ false
    → update counts id v key ≡ counts key
unfolding update
update_there counts id key v other = rw other refl

stored-some : (m n : ℕ) → m ≡ n → 0 < m → some m ≡ stored n
unfolding ℕ_discrete
stored-some m n e h = ground arith

Agrees-acquire :
    (counts next : Counts) (held : List Text) (id key : Text)
    → ((k : Text) → Agrees counts held k)
    → acquire counts id ≡ ok next
    → Agrees next (id ∷ held) key
unfolding acquire
Agrees-acquire counts next held id key h e =
    let active = active_of_stored counts id (occurrences id held) (h id).entry in
    let is : update counts id (some (active_calls counts id + 1)) ≡ next = ground arith in
    let free : active_calls counts id < 2 = ground arith in
    elim (Bool-cases (key == id)) [
      | inl same ↦
          let is_key : key ≡ id = ground arith in
          let moved = ap (λ k. occurrences k held) is_key in
          let one : occurrences key (id ∷ held) ≡ 1 + occurrences key held = rw same refl in
          record {
            entry =
                ap (λ c. c key) (sym is)
                ∙ update_here counts id key (some (active_calls counts id + 1)) same
                ∙ stored-some (active_calls counts id + 1) (occurrences key (id ∷ held))
                    (omega (arith, active, moved, one)) (omega arith);
            bounded = omega (arith, active, moved, one, free);
          }
      | inr other ↦
          let none_more : occurrences key (id ∷ held) ≡ 0 + occurrences key held = rw other refl in
          let same_count : occurrences key held ≡ occurrences key (id ∷ held) =
            omega (arith, none_more) in
          let bound = (h key).bounded in
          record {
            entry =
                ap (λ c. c key) (sym is)
                ∙ update_there counts id key (some (active_calls counts id + 1)) other
                ∙ (h key).entry
                ∙ ap stored same_count;
            bounded = omega (arith, bound, same_count);
          }
    ]

pub drop_stored :
    (counts : Counts) (id : Text) (n : ℕ)
    → counts id ≡ some n
    → drop_permit counts id ≡ update counts id (stored (n - 1))
unfolding drop_permit
drop_stored counts id n e = elim (Bool-cases (n - 1 == 0)) [
  | inl z ↦ rw (drop_permit, e, z) refl
  | inr z ↦ rw (drop_permit, e, z) refl
]

held_entry :
    (counts : Counts) (id : Text) (m : ℕ) → counts id ≡ stored (1 + m) → counts id ≡ some (1 + m)
unfolding ℕ_discrete
held_entry counts id m e = ground arith

pub eq_self : (id : Text) → (id == id) ≡ true
unfolding Text-discrete
eq_self id = ground arith

Agrees-drop :
    (counts : Counts) (before after : List Text) (id key : Text)
    → ((k : Text) → Agrees counts (before ++ id ∷ after) k)
    → Agrees (drop_permit counts id) (before ++ after) key
Agrees-drop counts before after id key h =
    let rest = before ++ after in
    let one : occurrences id (before ++ id ∷ after) ≡ 1 + occurrences id rest =
      occurrences-middle id id before after
      ∙ ap (λ b. (if b then 1 else 0) + occurrences id rest) (eq_self id) in
    let entry = held_entry counts id (occurrences id rest) ((h id).entry ∙ ap stored one) in
    let is = drop_stored counts id (1 + occurrences id rest) entry in
    let middle = occurrences-middle key id before after in
    let bound = (h key).bounded in
    elim (Bool-cases (key == id)) [
      | inl same ↦
          let is_key : key ≡ id = ground arith in
          let moved = ap (λ k. occurrences k rest) is_key in
          let left : 1 + occurrences id rest - 1 ≡ occurrences key rest = omega (arith, moved) in
          let more : occurrences key (before ++ id ∷ after) ≡ 1 + occurrences key rest =
            middle ∙ ap (λ b. (if b then 1 else 0) + occurrences key rest) same in
          record {
            entry =
                ap (λ c. c key) is
                ∙ update_here counts id key (stored (1 + occurrences id rest - 1)) same
                ∙ ap stored left;
            bounded = omega (arith, bound, more);
          }
      | inr other ↦
          let kept : occurrences key (before ++ id ∷ after) ≡ 0 + occurrences key rest =
            middle ∙ ap (λ b. (if b then 1 else 0) + occurrences key rest) other in
          let same_count : occurrences key (before ++ id ∷ after) ≡ occurrences key rest =
            omega (arith, kept) in
          record {
            entry =
                ap (λ c. c key) is
                ∙ update_there counts id key (stored (1 + occurrences id rest - 1)) other
                ∙ (h key).entry
                ∙ ap stored same_count;
            bounded = omega (arith, bound, same_count);
          }
    ]

-- In every state that connections can reach, the count of a principal is the number of permits
-- held for it, with no entry at 0, and that is at most two.
pub Agrees-Reachable :
    (counts : Counts) (held : List Text)
    → Reachable counts held
    → (id : Text) → Agrees counts held id
unfolding ℕ_discrete
Agrees-Reachable counts held start id = record { entry = refl; bounded = ground arith }
Agrees-Reachable counts held (admit c next hs p r e) id =
    Agrees-acquire c next hs p id (Agrees-Reachable c hs r) e
Agrees-Reachable counts held (leave c before after p r) id =
    Agrees-drop c before after p id (Agrees-Reachable c (before ++ p ∷ after) r)
