-- ===== src/Query/Counts.antt =====
-- Texts by the number of placeholders that a reader meets in them.
use gaze_lens.Prelude.{
  ℕ, suc, ◌+◌, ◌≡◌, refl, ap, ◌∙◌, true, ℕ_eq, ℕ_discrete, Text-eq, Text, List, [], ◌∷◌, ◌++◌, All,
  length, length-append, ok, Result-cases, arith, inl, inr,
}
use gaze_lens.Query.{
  WhereOp, ScalarValue, QueryValue, mysql, postgres, sqlite, Dialect, Compiling, push_bind, next,
  query_value, push_values, many, join, escape_ident, digits_on,
}
use gaze_lens.Query.Reads.{
  Balanced, count, total, Balanced-append, count-append, quoted-plain, count-plain, is_plain,
  plain-digits, Balanced-escape_ident, count-escape_ident, Balanced-join, count-join,
}

-- A text with `n` placeholders, all outside quotes that are closed.
pub record Reads (d : Dialect) (t : Text) (n : ℕ) : Type 0 where
  pub balanced : Balanced d t
  pub counted : count d t ≡ n

pub Reads-plain : (d : Dialect) (t : Text) → is_plain t ≡ true → Reads d t 0
Reads-plain d t h = record { balanced = quoted-plain d t h; counted = count-plain d t h }

pub Reads-append :
    (d : Dialect) (t u : Text) (m n : ℕ) → Reads d t m → Reads d u n → Reads d (t ++ u) (m + n)
Reads-append d t u m n r s = record {
  balanced = Balanced-append d t u r.balanced s.balanced;
  counted =
      let c = count-append d t u r.balanced in
      let a = r.counted in let b = s.counted in omega (arith, a, b, c);
}

pub Reads-escape_ident : (d : Dialect) (t : Text) → Reads d (escape_ident t d) 0
Reads-escape_ident d t = record {
  balanced = Balanced-escape_ident d t;
  counted = count-escape_ident d t;
}

pub Reads-next : (d : Dialect) (s : Compiling) → Reads d (next d s).0 1
unfolding next ℕ_discrete
Reads-next mysql s = record { balanced = refl; counted = refl }
Reads-next sqlite s = record { balanced = refl; counted = refl }
Reads-next postgres s =
    let h = plain-digits (suc s.next_index) s.next_index in
    let digits = digits_on (suc s.next_index) s.next_index in
    record {
      balanced = quoted-plain postgres digits h;
      counted = let c = count-plain postgres digits h in omega (arith, c);
    }

pub binds-next : (d : Dialect) (s : Compiling) → (next d s).1.binds ≡ s.binds
unfolding next
binds-next mysql s = refl
binds-next sqlite s = refl
binds-next postgres s = refl

-- Texts with `n` placeholders together.
pub record Read (d : Dialect) (ts : List Text) (n : ℕ) : Type 0 where
  pub balanced : All (Balanced d) ts
  pub counted : total d ts ≡ n

pub Read-cons :
    (d : Dialect) (t : Text) (ts : List Text) (m n : ℕ)
    → Reads d t m
    → Read d ts n
    → Read d (t ∷ ts) (m + n)
Read-cons d t ts m n r s = record {
  balanced = (r.balanced, s.balanced);
  counted = let a = r.counted in let b = s.counted in omega (arith, a, b);
}

pub Reads-join :
    (d : Dialect) (sep : Text) (ts : List Text) (n : ℕ)
    → is_plain sep ≡ true
    → Read d ts n
    → Reads d (join sep ts) n
Reads-join d sep ts n h r = record {
  balanced = Balanced-join d sep ts h r.balanced;
  counted = count-join d sep ts h r.balanced ∙ r.counted;
}

pub Read-many :
    (d : Dialect) (vs : List ScalarValue) (s : Compiling)
    → Read d (many d vs s).0 (length vs) × ((many d vs s).1.binds ≡ s.binds)
unfolding many
Read-many d [] s = (record { balanced = tt; counted = refl }, refl)
Read-many d (v ∷ vs) s =
    let (ih, kept) = Read-many d vs (next d s).1 in
    let one =
      Read-cons d (next d s).0 (many d vs (next d s).1).0 1 (length vs) (Reads-next d s) ih in
    (
      record { balanced = one.balanced; counted = let c = one.counted in omega (arith, c) },
      kept ∙ binds-next d s,
    )

-- What a stage adds to the text and to the binds.
pub record Adds (d : Dialect) (s u : Compiling) (t : Text) : Type 0 where
  pub added : ℕ
  pub reads : Reads d t added
  pub grown : length u.binds ≡ length s.binds + added

pub length-push_bind :
    (v : QueryValue) (s : Compiling) → length (push_bind v s).binds ≡ length s.binds + 1
length-push_bind v s = length-append s.binds (v ∷ [])

pub length-push_values :
    (vs : List ScalarValue) (op : WhereOp) (s u : Compiling)
    → push_values vs op s ≡ ok u
    → length u.binds ≡ length s.binds + length vs
unfolding push_values
length-push_values [] op s u h =
    let e : s ≡ u = ground arith in let k = ap (λ z. length z.binds) e in omega (arith, k)
length-push_values (v ∷ vs) op s u h = elim (Result-cases (query_value v op)) [
  | inl (_, bad) ↦ absurd (ground arith)
  | inr (b, good) ↦
      let ih = length-push_values vs op (push_bind b s) u (ground arith) in
      let one = length-push_bind b s in omega (arith, ih, one)
]
