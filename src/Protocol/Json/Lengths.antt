-- ===== src/Protocol/Json/Lengths.antt =====
-- The lengths of texts of JSON, crates/gaze-lens-protocol/src/bounds.rs.
use mathlib.Core.Path.{subst}
use gaze_lens.Prelude.{
  ℕ, ◌+◌, ◌-◌, ◌≤◌, ◌≡◌, ap, ◌∙◌, Bool, true, ◌&&◌, ◌==◌, ℕ_eq, Text-eq, Text, codes, [], ◌∷◌, ◌++◌,
  length, length-append, ok, arith, if◌then◌else◌,
}
use gaze_lens.Protocol.Faults.{within}
use gaze_lens.Protocol.Bounds.{request_bytes, result_bytes}
use gaze_lens.Protocol.Json.{closing, check_part}
use gaze_lens.Protocol.Json.Tree.{
  Key, unnamed, named, Json, scalar, bare, group, Entries, last, next, write_key, write,
  write_entries, PartFits,
}

after_longer :
    (xs ys zs : Text) (n : ℕ)
    → length ys ≡ length zs + n
    → length (xs ++ ys) ≡ length (xs ++ zs) + n
after_longer xs ys zs n h = omega (arith, length-append xs ys, length-append xs zs, h)

key_longer :
    (key : Key) (ys zs : Text) (n : ℕ)
    → length ys ≡ length zs + n
    → length (write_key key ys) ≡ length (write_key key zs) + n
unfolding write_key
key_longer unnamed ys zs n h = h
key_longer (named before slice field after) ys zs n h =
    after_longer before _ _ n
      (after_longer slice _ _ n (after_longer after (b':' ∷ ys) (b':' ∷ zs) n (omega (arith, h))))

-- What stands after a tree adds its own length.
mutual
  unfolding write

  write_longer :
      (j : Json) (ys zs : Text) (n : ℕ)
      → length ys ≡ length zs + n
      → length (write j ys) ≡ length (write j zs) + n
  write_longer (scalar slice) ys zs n h = after_longer slice ys zs n h
  write_longer (bare object gap) ys zs n h =
      let within =
        after_longer gap (closing object ∷ ys) (closing object ∷ zs) n (omega (arith, h)) in
      omega (arith, within)
  write_longer (group object gap es) ys zs n h =
      let within = after_longer gap _ _ n (entries_longer object es ys zs n h) in
      omega (arith, within)

  entries_longer :
      (object : Bool) (es : Entries) (ys zs : Text) (n : ℕ)
      → length ys ≡ length zs + n
      → length (write_entries object es ys) ≡ length (write_entries object es zs) + n
  entries_longer object (last key before v after) ys zs n h = key_longer key _ _ n (
      after_longer before _ _ n (
        write_longer v _ _ n
          (after_longer after (closing object ∷ ys) (closing object ∷ zs) n (omega (arith, h)))))
  entries_longer object (next key before v after later) ys zs n h =
      let more = entries_longer object later ys zs n h in
      key_longer key _ _ n (
        after_longer before _ _ n (
          write_longer v _ _ n (
            after_longer after (b',' ∷ write_entries object later ys)
              (b',' ∷ write_entries object later zs) n (omega (arith, more)))))

pub length-write : (j : Json) (t : Text) → length (write j t) ≡ length (write j []) + length t
length-write j t = write_longer j t [] (length t) (omega arith)

args_case :
    (b : Bool) (size : ℕ)
    → b ≡ true
    → (if b then within size request_bytes else ok tt) ≡ ok tt
    → size ≤ request_bytes
args_case b size top h = ground arith

result_case :
    (b : Bool) (size : ℕ)
    → b ≡ true
    → (if b then within size result_bytes else ok tt) ≡ ok tt
    → size ≤ result_bytes
result_case b size top h = ground arith

-- What the check of a part of the frame tells of the value.
checked_part :
    (frame : Bool) (depth : ℕ) (field : Text) (size : ℕ)
    → (frame && depth == 1) ≡ true
    → check_part frame depth field size ≡ ok tt
    → (field ≡ codes "args" → size ≤ request_bytes) × (field ≡ codes "result" → size ≤ result_bytes)
unfolding check_part
checked_part frame depth field size top h = (
  λ e.
      args_case (frame && depth == 1) size top
        (subst (λ f. check_part frame depth f size ≡ ok tt) e h),
  λ e.
      result_case (frame && depth == 1) size top
        (subst (λ f. check_part frame depth f size ≡ ok tt) e h),
)

pub part_fits :
    (frame : Bool) (depth : ℕ) (field gap : Text) (v : Json) (rest start : Text)
    → start ≡ gap ++ write v rest
    → (frame && depth == 1) ≡ true
    → check_part frame depth field (length start - length rest) ≡ ok tt
    → PartFits field v
part_fits frame depth field gap v rest start from top h =
    let whole : length start ≡ length gap + length (write v rest) =
      ap length from ∙ length-append gap (write v rest) in
    let (args, result) = checked_part frame depth field (length start - length rest) top h in
    (
      λ e. omega (arith, args e, whole, length-write v rest),
      λ e. omega (arith, result e, whole, length-write v rest),
    )
