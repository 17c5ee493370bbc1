-- ===== src/Logs/Keyword/Matches.antt =====
-- What the keyword index of src/mcp/tools/log_grep.rs answers, against a search line by line.
use gaze_lens.Prelude.{
  ℕ, suc, ◌<◌, ◌≡◌, refl, ◌∙◌, ap, sym, Bool, true, false, ◌&&◌, ◌==◌, ℕ_eq, Text-eq, Text-discrete,
  if◌then◌else◌, Text, List, [], ◌∷◌, ◌++◌, append_assoc, append-nil, any, all, is_empty, All,
  Pairs, text_ltb_irrefl, Bool-cases, arith, inl, inr,
}
use gaze_lens.Sets.{Before}
use gaze_lens.Logs.Keyword.{
  Postings, lines_of, no_postings, post, post_all, build_from, build, intersect_sorted, narrow,
  matching_lines,
}

-- Whether a list of terms has the term.
unfoldable pub has_term : Text → List Text → Bool
unfolding Text-discrete
has_term term terms = any (λ t. term == t) terms

-- The positions from n on of the lines that pass, in order.
unfoldable pub positions : (Text → Bool) → ℕ → List Text → List ℕ
positions p n [] = []
positions p n (l ∷ rest) = let later = positions p (suc n) rest in if p l then n ∷ later else later

abbrev pub posted : Bool → ℕ → List ℕ
posted true n = n ∷ []
posted false n = []

has_term-Before : (t : Text) (ts : List Text) → All (Before t) ts → has_term t ts ≡ false
unfolding has_term Text-discrete
has_term-Before t [] h = refl
has_term-Before t (s ∷ ts) (h, hs) = ground (arith, has_term-Before t ts hs, text_ltb_irrefl t, h)

eq_true : (a b : Text) → (a == b) ≡ true → a ≡ b
unfolding Text-discrete
eq_true a b h = elim (Text-discrete a b) [ yes e ↦ e | no n ↦ absurd (ground arith) ]

post-here :
    (t : Text) (n : ℕ) (ps : Postings) → lines_of (post t n ps t) ≡ lines_of (ps t) ++ n ∷ []
unfolding post Text-discrete
post-here t n ps = ground arith

post-there :
    (t : Text) (n : ℕ) (ps : Postings) (key : Text) → (key == t) ≡ false → post t n ps key ≡ ps key
unfolding post
post-there t n ps key h = rw h refl

lines-post_all :
    (ts : List Text) (n : ℕ) (ps : Postings) (key : Text)
    → Pairs Before ts
    → lines_of (post_all ts n ps key) ≡ lines_of (ps key) ++ posted (has_term key ts) n
unfolding post_all has_term
lines-post_all [] n ps key h = sym (append-nil (lines_of (ps key)))
lines-post_all (t ∷ ts) n ps key (h, hs) = elim (Bool-cases (key == t)) [
  | inl same ↦
      let e : key ≡ t = eq_true key t same in
      rw
        (
          same,
          lines-post_all ts n (post t n ps) key hs,
          e,
          has_term-Before t ts h,
          post-here t n ps,
        )
        (append-nil (lines_of (ps t) ++ n ∷ []))
  | inr other ↦
      rw (other, lines-post_all ts n (post t n ps) key hs, post-there t n ps key other) refl
]

positions-above :
    (p : Text → Bool) (n m : ℕ) (ls : List Text) → n < m → All (λ x. n < x) (positions p m ls)
unfolding positions
positions-above p n m [] h = tt
positions-above p n m (l ∷ ls) h = elim (Bool-cases (p l)) [
  | inl passes ↦ rw passes (h, positions-above p n (suc m) ls (omega (arith, h)))
  | inr fails ↦ rw fails (positions-above p n (suc m) ls (omega (arith, h)))
]

intersect_skip_left :
    (n : ℕ) (xs ys : List ℕ)
    → All (λ y. n < y) ys
    → intersect_sorted (n ∷ xs) ys ≡ intersect_sorted xs ys
unfolding intersect_sorted
intersect_skip_left n [] [] h = refl
intersect_skip_left n (x ∷ xs) [] h = refl
intersect_skip_left n xs (y ∷ ys) (h, hs) = ground arith

intersect_skip_right :
    (n : ℕ) (xs ys : List ℕ)
    → All (λ x. n < x) xs
    → intersect_sorted xs (n ∷ ys) ≡ intersect_sorted xs ys
unfolding intersect_sorted
intersect_skip_right n [] ys h = refl
intersect_skip_right n (x ∷ xs) ys (h, hs) = ground arith

append-posted :
    (xs : List ℕ) (b : Bool) (n : ℕ) (ys : List ℕ)
    → (xs ++ posted b n) ++ ys ≡ xs ++ (if b then n ∷ ys else ys)
append-posted xs true n ys = append_assoc xs (n ∷ []) ys
append-posted xs false n ys = ap (λ zs. zs ++ ys) (append-nil xs)

lines-build_from :
    (terms_of : Text → List Text)
    → ((l : Text) → Pairs Before (terms_of l))
    → (ls : List Text) (n : ℕ) (ps : Postings) (key : Text)
    → lines_of (build_from terms_of n ls ps key)
      ≡ lines_of (ps key) ++ positions (λ l. has_term key (terms_of l)) n ls
unfolding build_from positions
lines-build_from terms_of sorted [] n ps key = sym (append-nil (lines_of (ps key)))
lines-build_from terms_of sorted (l ∷ ls) n ps key =
    rw
      (
        lines-build_from terms_of sorted ls (suc n) (post_all (terms_of l) n ps) key,
        lines-post_all (terms_of l) n ps key (sorted l),
      )
      (append-posted (lines_of (ps key)) (has_term key (terms_of l)) n
        (positions (λ l. has_term key (terms_of l)) (suc n) ls))

intersect-positions :
    (p q : Text → Bool) (n : ℕ) (ls : List Text)
    → intersect_sorted (positions p n ls) (positions q n ls) ≡ positions (λ l. p l && q l) n ls
unfolding positions intersect_sorted
intersect-positions p q n [] = refl
intersect-positions p q n (l ∷ ls) =
    let both = intersect-positions p q (suc n) ls in
    let left = positions-above p n (suc n) ls (omega arith) in
    let right = positions-above q n (suc n) ls (omega arith) in
    elim (Bool-cases (p l)) [
      | inl in_p ↦ elim (Bool-cases (q l)) [
        | inl in_q ↦ rw (in_p, in_q) ground (arith, both)
        | inr out_q ↦
            rw (in_p, out_q)
              (intersect_skip_left n (positions p (suc n) ls) (positions q (suc n) ls) right ∙ both)
      ]
      | inr out_p ↦ elim (Bool-cases (q l)) [
        | inl in_q ↦
            rw (out_p, in_q)
              (intersect_skip_right n (positions p (suc n) ls) (positions q (suc n) ls) left ∙ both)
        | inr out_q ↦ rw (out_p, out_q) both
      ]
    ]

narrow-nothing : (ps : Postings) (ts : List Text) → narrow ps [] ts ≡ []
unfolding narrow intersect_sorted
narrow-nothing ps [] = refl
narrow-nothing ps (t ∷ ts) = refl

and_true : (b : Bool) → b ≡ b && true
and_true true = refl
and_true false = refl

and_assoc : (a b c : Bool) → (a && b) && c ≡ a && (b && c)
and_assoc true b c = refl
and_assoc false b c = refl

pub positions_same :
    (p q : Text → Bool)
    → ((l : Text) → p l ≡ q l)
    → (n : ℕ) (ls : List Text) → positions p n ls ≡ positions q n ls
unfolding positions
positions_same p q h n [] = refl
positions_same p q h n (l ∷ ls) = rw (h l, positions_same p q h (suc n) ls) refl

-- The early end of the loop changes nothing.
if-nothing :
    (ps : Postings) (xs : List ℕ) (ts : List Text)
    → (if is_empty xs then xs else narrow ps xs ts) ≡ narrow ps xs ts
if-nothing ps [] ts = sym (narrow-nothing ps ts)
if-nothing ps (x ∷ xs) ts = refl

-- The answer narrowed term by term.
narrow-positions :
    (terms_of : Text → List Text) (ps : Postings) (lines : List Text)
    → ((t : Text) → lines_of (ps t) ≡ positions (λ l. has_term t (terms_of l)) 0 lines)
    → (ts : List Text) (p : Text → Bool)
    → narrow ps (positions p 0 lines) ts
      ≡ positions (λ l. p l && all (λ t. has_term t (terms_of l)) ts) 0 lines
unfolding narrow
narrow-positions terms_of ps lines posted_at [] p =
    positions_same p (λ l. p l && true) (λ l. and_true (p l)) 0 lines
narrow-positions terms_of ps lines posted_at (t ∷ ts) p =
    rw (posted_at t, intersect-positions p (λ l. has_term t (terms_of l)) 0 lines)
      (if-nothing ps (positions (λ l. p l && has_term t (terms_of l)) 0 lines) ts
        ∙ narrow-positions terms_of ps lines posted_at ts (λ l. p l && has_term t (terms_of l))
        ∙ positions_same
            (λ l. (p l && has_term t (terms_of l)) && all (λ x. has_term x (terms_of l)) ts)
            (λ l. p l && (has_term t (terms_of l) && all (λ x. has_term x (terms_of l)) ts))
            (λ l. and_assoc (p l) (has_term t (terms_of l)) (all (λ x. has_term x (terms_of l)) ts))
            0 lines)

-- The positions of the lines that have each of the terms.
abbrev pub lines_with : (Text → List Text) → List Text → List Text → List ℕ
lines_with terms_of terms lines = positions (λ l. all (λ t. has_term t (terms_of l)) terms) 0 lines

pub index_matches :
    (terms_of : Text → List Text)
    → ((l : Text) → Pairs Before (terms_of l))
    → (lines : List Text) (term : Text) (rest : List Text)
    → matching_lines (build terms_of lines) (term ∷ rest) ≡ lines_with terms_of (term ∷ rest) lines
unfolding matching_lines build
index_matches terms_of sorted lines term rest =
    rw (lines-build_from terms_of sorted lines 0 no_postings term) (
      narrow-positions terms_of (build terms_of lines) lines
        (λ t. lines-build_from terms_of sorted lines 0 no_postings t) rest
        (λ l. has_term term (terms_of l)))
