-- ===== src/Sets.antt =====
-- BTreeSet of texts, as the list of its elements in order.
use gaze_lens.Prelude.{
  ◌≡◌, ◌↔◌, ◌⊎◌, true, List, [], ◌∷◌, Text, All, All-mono, Pairs, In, text_ltb, text_ltb_trans,
  text_ltb_total, Bool-cases, arith, inl, inr, if◌then◌else◌,
}

-- BTreeSet::insert
unfoldable pub set_insert : Text → List Text → List Text
unfolding text_ltb
set_insert n [] = n ∷ []
set_insert n (m ∷ rest) =
    if text_ltb n m then n ∷ m ∷ rest else if text_ltb m n then m ∷ set_insert n rest else m ∷ rest

abbrev pub Before : Text → Text → Type 0
Before m n = text_ltb m n ≡ true

pub All-set_insert :
    (P : Text → Type 0) (n : Text) (xs : List Text) → P n → All P xs → All P (set_insert n xs)
unfolding set_insert
All-set_insert P n [] p h = (p, tt)
All-set_insert P n (m ∷ xs) p (q, h) = elim (Bool-cases (text_ltb n m)) [
  | inl less ↦ rw less (p, (q, h))
  | inr not_less ↦ elim (Bool-cases (text_ltb m n)) [
    | inl more ↦ rw (not_less, more) (q, All-set_insert P n xs p h)
    | inr same ↦ rw (not_less, same) (q, h)
  ]
]

pub set_insert-sorted :
    (n : Text) (xs : List Text) → Pairs Before xs → Pairs Before (set_insert n xs)
unfolding set_insert
set_insert-sorted n [] h = (tt, tt)
set_insert-sorted n (m ∷ xs) (a, h) = elim (Bool-cases (text_ltb n m)) [
  | inl less ↦ rw less ((less, All-mono (λ x q. text_ltb_trans n m x less q) xs a), (a, h))
  | inr not_less ↦ elim (Bool-cases (text_ltb m n)) [
    | inl more ↦
        rw (not_less, more) (All-set_insert (Before m) n xs more a, set_insert-sorted n xs h)
    | inr same ↦ rw (not_less, same) (a, h)
  ]
]

pub In-set_insert : (x n : Text) (xs : List Text) → In x (set_insert n xs) ↔ ((x ≡ n) ⊎ In x xs)
unfolding set_insert
In-set_insert x n [] = ground arith
In-set_insert x n (m ∷ xs) = elim (Bool-cases (text_ltb n m)) [
  | inl less ↦ rw less ((λ h. h), (λ h. h))
  | inr not_less ↦ elim (Bool-cases (text_ltb m n)) [
    | inl more ↦ rw (not_less, more) (ground (arith, In-set_insert x n xs))
    | inr same ↦
        let is : n ≡ m = text_ltb_total n m not_less same in rw (not_less, same) (ground arith)
  ]
]
