-- ===== src/Logs/Tail/Output.antt =====
-- What a tail brings, src/source/log/local_log.rs: its bounds, and that it is complete when
-- nothing is flagged.
use gaze_lens.Prelude.{
  ℕ, zero, suc, ◌≤◌, ◌<◌, ◌≡◌, refl, sym, ap, ◌∙◌, ◌⊎◌, inl, inr, Bool, true, false, ℕ_eq,
  ℕ_discrete, ltb, if◌then◌else◌, Text, List, [], ◌∷◌, ◌++◌, map, some, length, any, Result, ok,
  err, All, Bool-cases, ok_is, arith,
}
use gaze_lens.Logs.Output.{TruncatedAt, bytes, line_bytes}
use gaze_lens.Logs.Tail.{
  hard_cap_lines, min, take, skip, read_capped, tail_start_offset, read_tail_bytes, split_lines,
  drop_empty, split_and_cap_lines_with_truncation, LocalLogOutput, decode, cut_and_split,
  tail_inner,
}
use gaze_lens.Logs.Tail.Offset.{IsTailStart-tail_start_offset}

length-take_le : (n : ℕ) (xs : Text) → length (take n xs) ≤ n
unfolding take
length-take_le n [] = omega arith
length-take_le zero (x ∷ xs) = omega arith
length-take_le (suc n) (x ∷ xs) = omega (arith, length-take_le n xs)

take_short : (n : ℕ) (xs : Text) → length xs ≤ n → take n xs ≡ xs
unfolding take
take_short n [] h = refl
take_short zero (x ∷ xs) h = absurd (omega (arith, h))
take_short (suc n) (x ∷ xs) h = ap (λ ys. x ∷ ys) (take_short n xs (omega (arith, h)))

take_whole : (n : ℕ) (xs : Text) → length (take (suc n) xs) ≤ n → take (suc n) xs ≡ xs
unfolding take
take_whole n [] h = refl
take_whole zero (x ∷ xs) h = absurd (omega (arith, h))
take_whole (suc n) (x ∷ xs) h = ap (λ ys. x ∷ ys) (take_whole n xs (omega (arith, h)))

module _ (lossy : Text → Text) (max : ℕ) where
  all_cut : (ls : List Text) → All (λ l. length l ≤ max) (map (take max) ls)
  all_cut [] = tt
  all_cut (l ∷ ls) = (length-take_le max l, all_cut ls)

  cut_twice : (ls : List Text) → map (λ l. lossy (take max l)) ls ≡ map lossy (map (take max) ls)
  cut_twice [] = refl
  cut_twice (l ∷ ls) = ap (λ rest. lossy (take max l) ∷ rest) (cut_twice ls)

  none_long :
      (ls : List Text)
      → any (λ l. ltb max (length l)) ls ≡ false
      → map (λ l. lossy (take max l)) ls ≡ map lossy ls
  none_long [] h = refl
  none_long (l ∷ ls) h =
      let short : length l ≤ max = ground arith in
      let rest : any (λ l. ltb max (length l)) ls ≡ false = ground arith in
      rw (take_short max l short, none_long ls rest) refl

read_none : (max : ℕ) (file : Text) → read_tail_bytes max file 0 ≡ some []
unfolding read_tail_bytes ℕ_discrete
read_none max file = refl

read_empty : (max lines : ℕ) → read_tail_bytes max [] (suc lines) ≡ some []
unfolding read_tail_bytes ℕ_discrete
read_empty max lines = ground arith

read_start :
    (max : ℕ) (file : Text) (lines start : ℕ)
    → 0 < lines
    → tail_start_offset file lines ≡ some start
    → read_tail_bytes max file lines ≡ some (read_capped file start (suc max))
unfolding ℕ_discrete take skip read_tail_bytes
read_start max file zero start h e = absurd (omega (arith, h))
read_start max [] (suc lines) start h e = read_empty max lines
read_start max (x ∷ xs) (suc lines) start h e = rw (e, read_tail_bytes) ground arith

read_some :
    (max : ℕ) (file : Text) (lines : ℕ) → (raw : Text) × (read_tail_bytes max file lines ≡ some raw)
read_some max file zero = ([], read_none max file)
read_some max file (suc lines) =
    let found = IsTailStart-tail_start_offset file (suc lines) (omega arith) in
    (
      read_capped file found.0 (suc max),
      read_start max file (suc lines) found.0 (omega arith) found.1.0,
    )

ok_same : {E A : Type 0} (a b : A) → (◌≡◌ {A = Result E A} (ok a) (ok b)) → a ≡ b
ok_same a b e = ground arith

same_ok :
    {E A : Type 0} (m : Result E A) (a b : A)
    → m ≡ ok a
    → m ≡ ok b
    → ◌≡◌ {A = Result E A} (ok a) (ok b)
same_ok m a b e f = sym e ∙ f

picked : {A : Type 0} (c b : Bool) (x y : A) → b ≡ c → (if c then x else y) ≡ (if b then x else y)
picked c b x y e = ap (λ t. if t then x else y) (sym e)

unflagged :
    (b : Bool) (flags : List TruncatedAt)
    → (if b then flags ++ line_bytes ∷ [] else flags) ≡ []
    → (b ≡ false) × (flags ≡ [])
unflagged true [] e = absurd (ground arith)
unflagged true (f ∷ fs) e = absurd (ground arith)
unflagged false flags e = (refl, e)

module _ (is_utf8 : Text → Bool) (lossy : Text → Text) (max_line_bytes max_total_bytes : ℕ) where
  -- Lines that were cut to the cap before they were decoded, and bytes up to theirs.
  pub record Within (out : LocalLogOutput) : Type 0 where
    pub in_bytes : out.bytes ≤ max_total_bytes
    pub cut_lines : List Text
    pub are_lines : out.lines ≡ map lossy cut_lines
    pub in_line_bytes : All (λ l. length l ≤ max_line_bytes) cut_lines

  Within-cut_and_split :
      (raw : Text) (flags : List TruncatedAt)
      → length raw ≤ max_total_bytes
      → (cut_and_split is_utf8 lossy max_line_bytes max_total_bytes raw flags ≡ err decode)
        ⊎ ((out : LocalLogOutput) × ((cut_and_split is_utf8 lossy max_line_bytes max_total_bytes raw
                  flags
                ≡ ok out)
              × Within out))
  unfolding split_and_cap_lines_with_truncation
  Within-cut_and_split raw flags h = elim (Bool-cases (is_utf8 raw)) [
    | inr bad ↦ inl (rw bad refl)
    | inl good ↦
        let lines = drop_empty (split_lines [] raw) in
        let split = split_and_cap_lines_with_truncation lossy raw max_line_bytes in
        let out : LocalLogOutput = record {
          lines = split.0;
          truncated_at = (if split.1 then flags ++ line_bytes ∷ [] else flags);
          bytes = length raw;
        } in
        inr (
          out,
          (
            rw good refl,
            record {
              in_bytes = h;
              cut_lines = map (take max_line_bytes) lines;
              are_lines = cut_twice lossy max_line_bytes lines;
              in_line_bytes = all_cut lossy max_line_bytes lines;
            },
          ),
        )
  ]

  inner_is :
      (file : Text) (lines : ℕ) (raw : Text)
      → read_tail_bytes max_total_bytes file (min lines hard_cap_lines) ≡ some raw
      → tail_inner is_utf8 lossy max_line_bytes max_total_bytes file lines ≡ (
          if ltb max_total_bytes (length raw)
          then cut_and_split is_utf8 lossy max_line_bytes max_total_bytes
              (take max_total_bytes raw)
              (bytes ∷ [])
          else cut_and_split is_utf8 lossy max_line_bytes max_total_bytes raw [])
  unfolding tail_inner
  inner_is file lines raw read = rw (read, tail_inner) refl

  -- A tail of any file answers: it is refused as not UTF-8, or it has at most the bytes of the
  -- cap, and its lines are decoded from at most the bytes of theirs.
  pub Within-tail_inner :
      (file : Text) (lines : ℕ)
      → (tail_inner is_utf8 lossy max_line_bytes max_total_bytes file lines ≡ err decode)
        ⊎ ((out : LocalLogOutput) × ((tail_inner is_utf8 lossy max_line_bytes max_total_bytes file
                  lines
                ≡ ok out)
              × Within out))
  unfolding tail_inner
  Within-tail_inner file lines =
      let read = read_some max_total_bytes file (min lines hard_cap_lines) in
      elim (Bool-cases (ltb max_total_bytes (length read.0))) [
        | inl long ↦
            rw (read.1, long, tail_inner)
              (Within-cut_and_split (take max_total_bytes read.0) (bytes ∷ [])
                (length-take_le max_total_bytes read.0))
        | inr short ↦ rw (read.1, short, tail_inner) (Within-cut_and_split read.0 [] (ground arith))
      ]

  cut_ok :
      (raw : Text) (flags : List TruncatedAt) (out : LocalLogOutput)
      → cut_and_split is_utf8 lossy max_line_bytes max_total_bytes raw flags ≡ ok out
      → (out.truncated_at ≡ (
          if (split_and_cap_lines_with_truncation lossy raw max_line_bytes).1
          then flags ++ line_bytes ∷ []
          else flags))
        × (out.lines ≡ (split_and_cap_lines_with_truncation lossy raw max_line_bytes).0)
  cut_ok raw flags out h = elim (Bool-cases (is_utf8 raw)) [
    | inr bad ↦ absurd (ground arith)
    | inl good ↦
        let split = split_and_cap_lines_with_truncation lossy raw max_line_bytes in
        let made : LocalLogOutput = record {
          lines = split.0;
          truncated_at = (if split.1 then flags ++ line_bytes ∷ [] else flags);
          bytes = length raw;
        } in
        let same : made ≡ out = ok_is made out (
          same_ok (cut_and_split is_utf8 lossy max_line_bytes max_total_bytes raw flags) made out
            (rw good refl) h) in
        (ap (λ o. o.truncated_at) (sym same), ap (λ o. o.lines) (sym same))
  ]

  cut_complete :
      (raw : Text) (flags : List TruncatedAt) (out : LocalLogOutput)
      → cut_and_split is_utf8 lossy max_line_bytes max_total_bytes raw flags ≡ ok out
      → out.truncated_at ≡ []
      → (flags ≡ []) × (out.lines ≡ map lossy (drop_empty (split_lines [] raw)))
  unfolding split_and_cap_lines_with_truncation
  cut_complete raw flags out h e =
      let is = cut_ok raw flags out h in
      let none_flagged =
        unflagged (any (λ l. ltb max_line_bytes (length l)) (drop_empty (split_lines [] raw))) flags
          (sym is.0 ∙ e) in
      (
        none_flagged.1,
        is.1 ∙ none_long lossy max_line_bytes (drop_empty (split_lines [] raw)) none_flagged.0,
      )

  -- A tail of one line or more that answers with nothing flagged is complete: its lines are all
  -- those after the start of the tail that are not empty.
  pub tail_complete :
      (file : Text) (lines : ℕ) (out : LocalLogOutput)
      → 0 < lines
      → tail_inner is_utf8 lossy max_line_bytes max_total_bytes file lines ≡ ok out
      → out.truncated_at ≡ []
      → (start : ℕ) × ((tail_start_offset file (min lines hard_cap_lines) ≡ some start)
          × (out.lines ≡ map lossy (drop_empty (split_lines [] (skip start file)))))
  tail_complete file lines out h is e =
      let found = IsTailStart-tail_start_offset file (min lines hard_cap_lines) (ground arith) in
      let raw = read_capped file found.0 (suc max_total_bytes) in
      let read =
        read_start max_total_bytes file (min lines hard_cap_lines) found.0 (ground arith)
          found.1.0 in
      let inner = sym (inner_is file lines raw read) ∙ is in
      elim (Bool-cases (ltb max_total_bytes (length raw))) [
        | inl long ↦
            let cut : cut_and_split is_utf8 lossy max_line_bytes max_total_bytes
                  (take max_total_bytes raw) (bytes ∷ [])
                ≡ ok out =
              picked true (ltb max_total_bytes (length raw))
                (cut_and_split is_utf8 lossy max_line_bytes max_total_bytes
                  (take max_total_bytes raw) (bytes ∷ []))
                (cut_and_split is_utf8 lossy max_line_bytes max_total_bytes raw []) long
              ∙ inner in
            absurd (ground (arith, cut_complete (take max_total_bytes raw) (bytes ∷ []) out cut e))
        | inr short ↦
            let cut : cut_and_split is_utf8 lossy max_line_bytes max_total_bytes raw [] ≡ ok out =
              picked false (ltb max_total_bytes (length raw))
                (cut_and_split is_utf8 lossy max_line_bytes max_total_bytes
                  (take max_total_bytes raw) (bytes ∷ []))
                (cut_and_split is_utf8 lossy max_line_bytes max_total_bytes raw []) short
              ∙ inner in
            (
              found.0,
              (
                found.1.0,
                (cut_complete raw [] out cut e).1
                    ∙ ap (λ xs. map lossy (drop_empty (split_lines [] xs)))
                        (take_whole max_total_bytes (skip found.0 file) (ground arith)),
              ),
            )
      ]
