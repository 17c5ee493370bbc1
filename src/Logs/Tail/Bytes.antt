-- ===== src/Logs/Tail/Bytes.antt =====
-- Bytes read, reversed and counted, for src/source/log/local_log.rs.
use gaze_lens.Prelude.{
  ℕ, zero, suc, ◌+◌, ◌≤◌, ◌≡◌, refl, sym, ap, ◌∙◌, ◌==◌, ℕ_eq, ℕ_discrete, if◌then◌else◌, Text, [],
  ◌∷◌, ◌++◌, append_assoc, append-nil, length, length-append, arith,
}
use gaze_lens.Logs.Tail.{newline, take, skip, reverse}

unfoldable pub newlines : Text → ℕ
unfolding ℕ_discrete
newlines [] = 0
newlines (b ∷ rest) = if b == newline then suc (newlines rest) else newlines rest

pub take-skip : (n m : ℕ) (xs : Text) → take (n + m) xs ≡ take n xs ++ take m (skip n xs)
unfolding take skip
take-skip n m [] = refl
take-skip zero m (x ∷ xs) = ap (λ k. take k (x ∷ xs)) (omega arith)
take-skip (suc n) m (x ∷ xs) =
    let e : suc n + m ≡ suc (n + m) = omega arith in
    ap (λ k. take k (x ∷ xs)) e ∙ ap (λ ys. x ∷ ys) (take-skip n m xs)

pub length-take_lem : (n : ℕ) (xs : Text) → n ≤ length xs → length (take n xs) ≡ n
unfolding take
length-take_lem zero [] h = refl
length-take_lem zero (x ∷ xs) h = refl
length-take_lem (suc n) [] h = absurd (omega (arith, h))
length-take_lem (suc n) (x ∷ xs) h = ap suc (length-take_lem n xs (omega (arith, h)))

pub take-zero : (xs : Text) → take 0 xs ≡ []
unfolding take
take-zero [] = refl
take-zero (x ∷ xs) = refl

pub take_all : (xs : Text) → take (length xs) xs ≡ xs
unfolding take
take_all [] = refl
take_all (x ∷ xs) = ap (λ ys. x ∷ ys) (take_all xs)

pub reverse-append : (xs ys : Text) → reverse (xs ++ ys) ≡ reverse ys ++ reverse xs
unfolding reverse
reverse-append [] ys = sym (append-nil (reverse ys))
reverse-append (x ∷ xs) ys =
    rw (reverse-append xs ys) (append_assoc (reverse ys) (reverse xs) (x ∷ []))

pub length-reverse : (xs : Text) → length (reverse xs) ≡ length xs
unfolding reverse
length-reverse [] = refl
length-reverse (x ∷ xs) = omega (arith, length-append (reverse xs) (x ∷ []), length-reverse xs)

pub reverse-reverse : (xs : Text) → reverse (reverse xs) ≡ xs
unfolding reverse
reverse-reverse [] = refl
reverse-reverse (x ∷ xs) = rw (reverse-append (reverse xs) (x ∷ []), reverse-reverse xs) refl

pub newlines-append : (xs ys : Text) → newlines (xs ++ ys) ≡ newlines xs + newlines ys
unfolding newlines
newlines-append [] ys = omega arith
newlines-append (x ∷ xs) ys = ground (arith, newlines-append xs ys)

pub newlines-reverse : (xs : Text) → newlines (reverse xs) ≡ newlines xs
unfolding reverse newlines
newlines-reverse [] = refl
newlines-reverse (x ∷ xs) =
    ground (arith, newlines-reverse xs, newlines-append (reverse xs) (x ∷ []))
