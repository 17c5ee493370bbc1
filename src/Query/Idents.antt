-- ===== src/Query/Idents.antt =====
-- Quoted identifiers read back as SQL reads them.
use gaze_lens.Prelude.{
  ℕ, ◌≡◌, refl, ap, ◌∙◌, true, false, ◌==◌, ℕ_eq, ℕ_discrete, Bool-cases, if◌then◌else◌, Text, [],
  ◌∷◌, ◌++◌, append_assoc, Option, none, some, arith, inl, inr,
}
use gaze_lens.Query.{Dialect, quote, double, escape_ident}

abbrev pub before : ℕ → Option (Text × Text) → Option (Text × Text)
before c none = none
before c (some (ident, rest)) = some (c ∷ ident, rest)

-- After the opening quote: two quotes are one of the identifier, a single one ends it.
abbrev pub read_quoted : ℕ → Text → Option (Text × Text)
read_quoted q [] = none
read_quoted q (c ∷ []) = if c == q then some ([], []) else none
read_quoted q (c ∷ d ∷ rest) =
    let doubled = read_quoted q rest in
    let next = read_quoted q (d ∷ rest) in
    if c == q then (if d == q then before q doubled else some ([], d ∷ rest)) else before c next

abbrev pub read_ident : Dialect → Text → Option (Text × Text)
read_ident d [] = none
read_ident d (c ∷ rest) = if c == quote d then read_quoted (quote d) rest else none

abbrev pub IsOther : ℕ → Text → Type 0
IsOther q [] = Unit
IsOther q (c ∷ rest) = (c == q) ≡ false

eq_self : (q : ℕ) → (q == q) ≡ true
unfolding ℕ_discrete
eq_self q = ground arith

read_end : (q : ℕ) (u : Text) → IsOther q u → read_quoted q (q ∷ u) ≡ some ([], u)
read_end q [] h = rw (eq_self q) refl
read_end q (c ∷ u) h = rw (eq_self q, h) refl

read_doubled : (q : ℕ) (rest : Text) → read_quoted q (q ∷ q ∷ rest) ≡ before q (read_quoted q rest)
read_doubled q rest = rw (eq_self q) refl

read_plain :
    (q c : ℕ) (t : Text) → (c == q) ≡ false → read_quoted q (c ∷ t) ≡ before c (read_quoted q t)
read_plain q c [] h = rw h refl
read_plain q c (d ∷ t) h = rw h refl

read-double :
    (q : ℕ) (t u : Text) → IsOther q u → read_quoted q (double q t ++ (q ∷ u)) ≡ some (t, u)
unfolding double
read-double q [] u h = read_end q u h
read-double q (c ∷ t) u h = elim (Bool-cases (c == q)) [
  | inl e ↦
      let same : q ≡ c = is_quote q c e in
      rw e (
        read_doubled q (double q t ++ (q ∷ u))
        ∙ ap (before q) (read-double q t u h)
        ∙ ap (λ x. some (x ∷ t, u)) same)
  | inr e ↦ rw e (read_plain q c (double q t ++ (q ∷ u)) e ∙ ap (before c) (read-double q t u h))
]
  where
    is_quote : (q c : ℕ) → (c == q) ≡ true → q ≡ c
    is_quote q c e = ground arith

-- Whatever characters an identifier holds, SQL that reads its quoted form gets the identifier back
-- and goes on with exactly the text that follows, if that text does not begin with the quote.
pub read_ident-escape_ident :
    (d : Dialect) (ident rest : Text)
    → IsOther (quote d) rest
    → read_ident d (escape_ident ident d ++ rest) ≡ some (ident, rest)
unfolding escape_ident
read_ident-escape_ident d ident rest h =
    let q = quote d in
    let flat : (double q ident ++ q ∷ []) ++ rest ≡ double q ident ++ (q ∷ rest) =
      append_assoc (double q ident) (q ∷ []) rest in
    rw (eq_self q) (ap (read_quoted q) flat ∙ read-double q ident rest h)
