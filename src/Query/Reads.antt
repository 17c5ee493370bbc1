-- ===== src/Query/Reads.antt =====
-- SQL read past its quoted identifiers: a reader that knows the quote and the placeholder alone.
use gaze_lens.Prelude.{
  ℕ, zero, suc, ◌+◌, ◌≡◌, refl, ap, ◌∙◌, Bool, true, false, not, ◌&&◌, ◌||◌, ◌==◌, ℕ_eq, ℕ_discrete,
  Bool-cases, if◌then◌else◌, Text, List, [], ◌∷◌, ◌++◌, All, arith, inl, inr, any, ltb, ◌<◌, ◌/◌,
  ◌%◌,
}
use gaze_lens.Query.{Dialect, mysql, postgres, sqlite, quote, double, escape_ident, digits_on, join}

-- Whether the reader stands inside quotes after a text.
abbrev pub quoted : ℕ → Bool → Text → Bool
quoted q inside [] = inside
quoted q inside (c ∷ rest) = quoted q (if c == q then not inside else inside) rest

-- How often a character stands outside quotes.
abbrev pub outside : ℕ → ℕ → Bool → Text → ℕ
outside q p inside [] = 0
outside q p inside (c ∷ rest) =
    (if not inside && c == p then 1 else 0)
    + outside q p (if c == q then not inside else inside) rest

abbrev pub placeholder : Dialect → ℕ
placeholder postgres = 36
placeholder _ = 63

abbrev pub Balanced : Dialect → Text → Type 0
Balanced d t = quoted (quote d) false t ≡ false

abbrev pub count : Dialect → Text → ℕ
count d t = outside (quote d) (placeholder d) false t

quoted-append : (q : ℕ) (b : Bool) (t u : Text) → quoted q b (t ++ u) ≡ quoted q (quoted q b t) u
unfolding ℕ_discrete
quoted-append q b [] u = refl
quoted-append q b (c ∷ t) u = quoted-append q (if c == q then not b else b) t u

outside-append :
    (q p : ℕ) (b : Bool) (t u : Text)
    → outside q p b (t ++ u) ≡ outside q p b t + outside q p (quoted q b t) u
unfolding ℕ_discrete
outside-append q p b [] u = omega arith
outside-append q p b (c ∷ t) u =
    let ih = outside-append q p (if c == q then not b else b) t u in omega (arith, ih)

pub Balanced-append : (d : Dialect) (t u : Text) → Balanced d t → Balanced d u → Balanced d (t ++ u)
Balanced-append d t u h k = quoted-append (quote d) false t u ∙ ap (λ b. quoted (quote d) b u) h ∙ k

pub count-append :
    (d : Dialect) (t u : Text) → Balanced d t → count d (t ++ u) ≡ count d t + count d u
count-append d t u h =
    outside-append (quote d) (placeholder d) false t u
    ∙ ap (λ b. count d t + outside (quote d) (placeholder d) b u) h

-- A text without the quotes and placeholders of any dialect.
abbrev pub is_plain : Text → Bool
is_plain t = not (any (λ c. c == 34 || c == 96 || c == 36 || c == 63) t)

pub quoted-plain : (d : Dialect) (t : Text) → is_plain t ≡ true → Balanced d t
unfolding ℕ_discrete
quoted-plain d [] h = refl
quoted-plain mysql (c ∷ t) h = let ih = quoted-plain mysql t (ground arith) in ground arith
quoted-plain postgres (c ∷ t) h = let ih = quoted-plain postgres t (ground arith) in ground arith
quoted-plain sqlite (c ∷ t) h = let ih = quoted-plain sqlite t (ground arith) in ground arith

pub count-plain : (d : Dialect) (t : Text) → is_plain t ≡ true → count d t ≡ 0
unfolding ℕ_discrete
count-plain d [] h = refl
count-plain mysql (c ∷ t) h = let ih = count-plain mysql t (ground arith) in ground arith
count-plain postgres (c ∷ t) h = let ih = count-plain postgres t (ground arith) in ground arith
count-plain sqlite (c ∷ t) h = let ih = count-plain sqlite t (ground arith) in ground arith

plain-append : (t u : Text) → is_plain t ≡ true → is_plain u ≡ true → is_plain (t ++ u) ≡ true
plain-append [] u h k = k
plain-append (c ∷ t) u h k = let ih = plain-append t u (ground arith) k in ground arith

plain-digit : (r : ℕ) → r < 10 → is_plain ((48 + r) ∷ []) ≡ true
unfolding ℕ_discrete
plain-digit r h = ground arith

pub plain-digits : (fuel n : ℕ) → is_plain (digits_on fuel n) ≡ true
unfolding digits_on
plain-digits zero n = refl
plain-digits (suc fuel) n = elim (Bool-cases (ltb n 10)) [
  | inl e ↦ rw e (plain-digit n (ground arith))
  | inr e ↦ rw e (
      plain-append (digits_on fuel (n / 10)) ((48 + n % 10) ∷ []) (plain-digits fuel (n / 10))
        (plain-digit (n % 10) (omega arith)))
]

eq_self : (q : ℕ) → (q == q) ≡ true
unfolding ℕ_discrete
eq_self q = ground arith

quoted-double : (q : ℕ) (t u : Text) → quoted q true (double q t ++ u) ≡ quoted q true u
unfolding double
quoted-double q [] u = refl
quoted-double q (c ∷ t) u = elim (Bool-cases (c == q)) [
  | inl e ↦ rw (e, quoted, eq_self q) (quoted-double q t u)
  | inr e ↦ rw (e, quoted, e) (quoted-double q t u)
]

outside-double :
    (q p : ℕ) (t u : Text)
    → (q == p) ≡ false
    → outside q p true (double q t ++ u) ≡ outside q p true u
unfolding double
outside-double q p [] u n = refl
outside-double q p (c ∷ t) u n = elim (Bool-cases (c == q)) [
  | inl e ↦ let ih = outside-double q p t u n in rw (e, eq_self q, n) (omega (arith, ih))
  | inr e ↦ let ih = outside-double q p t u n in rw (e, e) (omega (arith, ih))
]

pub Balanced-escape_ident : (d : Dialect) (t : Text) → Balanced d (escape_ident t d)
unfolding escape_ident ℕ_discrete
Balanced-escape_ident mysql t = quoted-double 96 t (96 ∷ [])
Balanced-escape_ident postgres t = quoted-double 34 t (34 ∷ [])
Balanced-escape_ident sqlite t = quoted-double 96 t (96 ∷ [])

pub count-escape_ident : (d : Dialect) (t : Text) → count d (escape_ident t d) ≡ 0
unfolding escape_ident ℕ_discrete
count-escape_ident mysql t = let ih = outside-double 96 63 t (96 ∷ []) refl in omega (arith, ih)
count-escape_ident postgres t = let ih = outside-double 34 36 t (34 ∷ []) refl in omega (arith, ih)
count-escape_ident sqlite t = let ih = outside-double 96 63 t (96 ∷ []) refl in omega (arith, ih)

-- The sum of the counts of some texts.
abbrev pub total : Dialect → List Text → ℕ
total d [] = 0
total d (t ∷ ts) = count d t + total d ts

pub Balanced-join :
    (d : Dialect) (sep : Text) (ts : List Text)
    → is_plain sep ≡ true
    → All (Balanced d) ts
    → Balanced d (join sep ts)
Balanced-join d sep [] h k = refl
Balanced-join d sep (t ∷ []) h k = k.0
Balanced-join d sep (t ∷ u ∷ ts) h k = Balanced-append d t (sep ++ join sep (u ∷ ts)) k.0 (
    Balanced-append d sep (join sep (u ∷ ts)) (quoted-plain d sep h)
      (Balanced-join d sep (u ∷ ts) h k.1))

pub count-join :
    (d : Dialect) (sep : Text) (ts : List Text)
    → is_plain sep ≡ true
    → All (Balanced d) ts
    → count d (join sep ts) ≡ total d ts
count-join d sep [] h k = refl
count-join d sep (t ∷ []) h k = omega arith
count-join d sep (t ∷ u ∷ ts) h k =
    let ih = count-join d sep (u ∷ ts) h k.1 in
    let first = count-append d t (sep ++ join sep (u ∷ ts)) k.0 in
    let second = count-append d sep (join sep (u ∷ ts)) (quoted-plain d sep h) in
    let third = count-plain d sep h in omega (arith, ih, first, second, third)
