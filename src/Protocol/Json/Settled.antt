-- ===== src/Protocol/Json/Settled.antt =====
-- The scanner of crates/gaze-lens-protocol/src/bounds.rs never lacks a round or a level.
use gaze_lens.Prelude.{
  ℕ, zero, suc, ◌+◌, ◌≤◌, ◌<◌, ◌≡◌, ◌⊎◌, refl, ap, Bool, false, not, ◌&&◌, ◌||◌, ◌==◌, ℕ_eq,
  Text-eq, if◌then◌else◌, Text, codes, List, [], ◌∷◌, ◌++◌, any, is_empty, length, length-append,
  Option, ok, err, arith, inl, inr,
}
use gaze_lens.Protocol.Errors.{invalid_request, cap_exceeded}
use gaze_lens.Protocol.Bounds.{request_bytes, result_bytes, scalar_bytes}
use gaze_lens.Protocol.Faults.{Scanned, refused, hold, within}
use gaze_lens.Protocol.Strings.{between}
use gaze_lens.Protocol.Strings.Settled.{
  Settles, accepted, declined, capped, Settles-if, Settles-ok_or, Settles-hold, Settles-within,
  Settles-bind, Settles-after, Settles-seq, Settles-expect, Settles-string,
}
use gaze_lens.Protocol.Json as Scan
use gaze_lens.Protocol.Json.{
  Scanner, space, node, max_depth, max_nodes, closing, starts, is_token, token, skip_token,
  unquoted, field_of,
}
use gaze_lens.Protocol.Json.Tree.{Key, unnamed, named, Json, write_key, write}
use gaze_lens.Protocol.Json.Lengths.{length-write}
use gaze_lens.Protocol.Json.Reads.{space_reads}
use gaze_lens.Protocol.Json.Entries.{HasEntry, Reader}
use gaze_lens.Protocol.Json.Loop.{entry_reads}
use gaze_lens.Protocol.Json.Sound.{value_reads}

longer : (xs ys : Text) (n : ℕ) → n ≤ length ys → n ≤ length (xs ++ ys)
longer xs ys n h = omega (arith, length-append xs ys, h)

write_key_longer : (key : Key) (t : Text) (n : ℕ) → n ≤ length t → n ≤ length (write_key key t)
unfolding write_key
write_key_longer unnamed t n h = h
write_key_longer (named before slice field after) t n h =
    longer before _ n (longer slice _ n (longer after (b':' ∷ t) n (omega (arith, h))))

write_longer : (j : Json) (t : Text) (n : ℕ) → n ≤ length t → n ≤ length (write j t)
write_longer j t n h = omega (arith, length-write j t, h)

space_shortens : (t : Text) → length (space t) ≤ length t
space_shortens t =
    let (gap, from, blank) = space_reads t in
    rw (ap length from) (longer gap (space t) (length (space t)) (omega arith))

Settles-node : (nodes : ℕ) → Settles (node nodes)
Settles-node nodes =
    Settles-seq (within (nodes + 1) max_nodes) (Settles-within (nodes + 1) max_nodes)
      λ few. accepted

Settles-token : (start : Text) → Settles (token start)
unfolding token
Settles-token start =
    let word = between start (skip_token start) in
    Settles-seq (hold (is_token word)) (Settles-hold (is_token word)) λ good.
      Settles-seq (within (length word) scalar_bytes) (Settles-within (length word) scalar_bytes)
        λ small. accepted

Settles-check_part :
    (frame : Bool) (depth : ℕ) (field : Text) (size : ℕ)
    → Settles (Scan.check_part frame depth field size)
unfolding Scan.check_part
Settles-check_part frame depth field size =
    Settles-if (frame && depth == 1)
      (λ top.
        Settles-if (field == codes "args") (λ args. Settles-within size request_bytes)
          (λ other.
            Settles-if (field == codes "result") (λ result. Settles-within size result_bytes)
              (λ neither. accepted)))
      (λ within_so. accepted)

module _ (utf8 : Text → Bool) (unescape : Text → Option Text) where
  Settles-field_of : (key : Text) → Settles (field_of utf8 unescape key)
  unfolding field_of
  Settles-field_of key = Settles-seq (hold (utf8 key)) (Settles-hold (utf8 key)) λ valid.
      Settles-if (any (λ b. b == b'\\') key) (λ escaped. Settles-ok_or (unescape key))
        (λ plain. accepted)

  Settles-named :
      (keys : List Text) (nodes : ℕ) (rest : Text)
      → Settles (Scan.named utf8 unescape keys nodes rest)
  unfolding Scan.named
  Settles-named keys nodes rest = Settles-bind (Settles-node nodes) λ nodes₁.
      Settles-bind (Settles-string scalar_bytes false (space rest)) λ (key, rest₁).
        Settles-bind (Settles-field_of key) λ field.
          Settles-seq (hold (not (any (λ k. k == field) keys)))
            (Settles-hold (not (any (λ k. k == field) keys)))
            λ fresh. Settles-bind (Settles-expect b':' (space rest₁)) λ rest₂. accepted

  module _ (frame : Bool) (scalar_max : ℕ) where
    -- The rest after an entry and white space is no longer than the text before.
    entry_shortens :
        (object : Bool) (depth : ℕ) (keys : List Text) (nodes : ℕ) (start field : Text)
        (after : Scanner)
        → HasEntry utf8 unescape frame object depth keys nodes start field after
        → length (space after.rest) ≤ length start
    entry_shortens object depth keys nodes start field after e = rw (ap length (e.named_by.from)) (
        write_key_longer e.named_by.key e.rest₁ _ (
          rw (ap length e.from) (
            longer e.before (write e.value after.rest) _
              (write_longer e.value after.rest _ (space_shortens after.rest)))))

    Settles-separate :
        (left : Text) (end nodes : ℕ) (more : Text → Scanned Scanner)
        → ((rest : Text) → length rest < length left → Settles (more rest))
        → Settles (Scan.separate left end nodes more)
    unfolding Scan.separate
    Settles-separate [] end nodes more later = declined
    Settles-separate (b ∷ rest) end nodes more later =
        Settles-if (b == b',') (λ comma. later rest (omega arith))
          (λ other. Settles-if (b == end) (λ ends. accepted) (λ neither. declined))

    module _ (depth : ℕ) (child : Bool → ℕ → Scanner → Scanned Scanner)
        (reads : Reader utf8 unescape frame (depth + 1) child)
        (settles : (binding : Bool) (limit : ℕ) (s : Scanner)
          → Settles (child binding limit s)) where
      Settles-entry :
          (object : Bool) (binding : Bool) (keys : List Text) (nodes : ℕ) (rest : Text)
          → Settles
              (Scan.entry utf8 unescape frame scalar_max child object depth binding keys nodes rest)
      unfolding Scan.entry
      Settles-entry object binding keys nodes rest =
          Settles-bind (Settles-if object (λ o. Settles-named keys nodes rest) (λ a. accepted))
            λ (field, nodes₁, rest₁).
              Settles-seq (hold (not (binding && object) || starts b'"' (space rest₁)))
                (Settles-hold _)
                λ one.
                  Settles-seq
                    (hold (
                      not (frame && depth == 1 && field == codes "binding")
                      || starts b'{' (space rest₁)))
                    (Settles-hold _)
                    λ two. Settles-bind (settles _ _ _) λ after.
                      Settles-seq (Scan.check_part frame depth field _)
                        (Settles-check_part frame depth field _) λ three. accepted

      -- A round for each byte and one more is enough.
      Settles-entries :
          (object : Bool) (binding : Bool) (steps : ℕ) (keys : List Text) (nodes : ℕ) (start : Text)
          → length start < steps
          → Settles (
              Scan.entries utf8 unescape frame scalar_max child object depth binding steps keys
                nodes start)
      unfolding Scan.entries
      Settles-entries object binding zero keys nodes start h = absurd (omega (arith, h))
      Settles-entries object binding (suc steps) keys nodes start h =
          Settles-after (Settles-entry object binding keys nodes start)
            (entry_reads utf8 unescape frame scalar_max depth child reads object binding keys nodes
              start)
            λ (field, after) e.
              let short = entry_shortens object depth keys nodes start field after e in
              Settles-separate (space after.rest) (closing object) after.nodes _ λ rest less.
                Settles-entries object binding steps (if object then field ∷ keys else keys)
                  after.nodes rest (omega (arith, short, less, h))

      Settles-body :
          (binding : Bool) (limit nodes : ℕ) (start : Text)
          → Settles (Scan.body utf8 unescape frame scalar_max child depth binding limit nodes start)
      unfolding Scan.body Scan.group
      Settles-body binding limit nodes [] = declined
      Settles-body binding limit nodes (b ∷ rest) =
          Settles-if (b == b'"')
            (λ quote.
              Settles-bind (Settles-string limit binding (b ∷ rest)) λ (slice, later). accepted)
            (λ other.
              Settles-if (b == b'{' || b == b'[')
                (λ bracket.
                  Settles-if (starts (closing (b == b'{')) (space rest))
                    (λ closes.
                      Settles-bind (Settles-expect (closing (b == b'{')) (space rest))
                        λ later. accepted)
                    (λ open_so.
                      Settles-entries (b == b'{') binding (length rest + 1) [] nodes (space rest)
                        (omega (arith, space_shortens rest))))
                (λ neither. Settles-bind (Settles-token (b ∷ rest)) λ later. accepted))

    -- Levels that reach the ceiling of the depth are enough.
    Settles-value :
        (levels depth : ℕ)
        → max_depth + 2 ≤ levels + depth
        → depth ≤ max_depth + 1
        → (binding : Bool) (limit : ℕ) (s : Scanner)
        → Settles (Scan.value utf8 unescape frame scalar_max levels depth binding limit s)
    unfolding Scan.value
    Settles-value zero depth h k binding limit s = absurd (omega (arith, h, k))
    Settles-value (suc levels) depth h k binding limit s =
        Settles-seq (within depth max_depth) (Settles-within depth max_depth) λ deep.
          Settles-bind (Settles-node s.nodes) λ nodes.
            let shallow : depth ≤ max_depth = ground arith in
            Settles-body depth (Scan.value utf8 unescape frame scalar_max levels (depth + 1))
              (value_reads utf8 unescape frame scalar_max levels (depth + 1))
              (Settles-value levels (depth + 1) (omega (arith, h)) (omega (arith, shallow))) binding
              limit nodes (space s.rest)

-- The scanner always ends: on every text, ceiling and mode, and whatever UTF-8 and the decoding of
-- a key answer, scan_json accepts, or refuses with invalid_request or cap_exceeded.
pub Settles-scan_json :
    (utf8 : Text → Bool) (unescape : Text → Option Text) (bytes : Text) (most : ℕ) (frame : Bool)
    (scalar_max : ℕ)
    → (Scan.scan_json utf8 unescape bytes most frame scalar_max ≡ ok tt)
      ⊎ ((Scan.scan_json utf8 unescape bytes most frame scalar_max ≡ err (refused invalid_request))
          ⊎ (Scan.scan_json utf8 unescape bytes most frame scalar_max ≡ err (refused cap_exceeded)))
unfolding Scan.scan_json
Settles-scan_json utf8 unescape bytes most frame scalar_max = verdict (
    Settles-seq (within (length bytes) most) (Settles-within (length bytes) most) λ fits.
      Settles-seq (hold (utf8 bytes)) (Settles-hold (utf8 bytes)) λ valid.
        Settles-bind
          (Settles-value utf8 unescape frame scalar_max (max_depth + 1) 1 (omega arith)
            (omega arith) false scalar_max (record { rest = bytes; nodes = 0 }))
          λ s. Settles-hold (is_empty (space s.rest)))
  where
    verdict :
        {r : Scanned (Unit {0})}
        → Settles r
        → (r ≡ ok tt) ⊎ ((r ≡ err (refused invalid_request)) ⊎ (r ≡ err (refused cap_exceeded)))
    verdict accepted = inl refl
    verdict declined = inr (inl refl)
    verdict capped = inr (inr refl)
