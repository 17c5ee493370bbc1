-- ===== src/Protocol/Json/Loop.antt =====
-- The loop over entries of the scanner of crates/gaze-lens-protocol/src/bounds.rs, if what it calls
-- for a value reads one.
use gaze_lens.Prelude.{
  ℕ, zero, suc, ◌+◌, ◌-◌, ◌≡◌, refl, sym, ap, ◌∙◌, Bool, not, ◌&&◌, ◌||◌, ◌==◌, ℕ_eq, Text-eq,
  if◌then◌else◌, Text, codes, List, [], ◌∷◌, ◌++◌, append_assoc, length, Option, eq_true, Gives,
  gives, fails, Gives-if, Gives-bind, Gives-seq, Gives-mono,
}
use gaze_lens.Protocol.Faults.{Scanned, hold}
use gaze_lens.Protocol.Bounds.{scalar_bytes}
use gaze_lens.Protocol.Json as Scan
use gaze_lens.Protocol.Json.{
  Scanner, is_space, space, is_token, token, node, max_nodes, max_depth, closing, starts, field_of,
}
use gaze_lens.Protocol.Json.Tree.{write}
use gaze_lens.Protocol.Json.Lengths.{part_fits}
use gaze_lens.Protocol.Json.Reads.{space_reads, IsBlank-append}
use gaze_lens.Protocol.Json.Entries.{
  Reader, HasEntry, HasEntries, key_reads, last_entry, next_entry,
}

module _ (utf8 : Text → Bool) (unescape : Text → Option Text) where
  module _ (frame : Bool) (scalar_max : ℕ) (depth : ℕ)
      (child : Bool → ℕ → Scanner → Scanned Scanner)
      (reads : Reader utf8 unescape frame (depth + 1) child) where
    pub entry_reads :
        (object : Bool) (binding : Bool) (keys : List Text) (nodes : ℕ) (start : Text)
        → Gives
            (λ (field, after).
              HasEntry utf8 unescape frame object depth keys nodes start field after)
            (Scan.entry utf8 unescape frame scalar_max child object depth binding keys nodes start)
    unfolding Scan.entry
    entry_reads object binding keys nodes start =
        Gives-bind (key_reads utf8 unescape object keys nodes start) λ (field, nodes₁, rest₁) k.
          let (gap, from, blank) = space_reads rest₁ in
          let start₁ = space rest₁ in
          let binding_field = binding && object in
          let child_binding = frame && depth == 1 && field == codes "binding" in
          let limit =
            if binding_field
            then 32
            else if frame && field == codes "base64"
            then scalar_bytes + scalar_bytes
            else scalar_max in
          Gives-seq (hold (not binding_field || starts b'"' start₁)) λ one.
            Gives-seq (hold (not child_binding || starts b'{' start₁)) λ two.
              Gives-bind
                (reads (binding_field || child_binding) limit
                  (record { rest = start₁; nodes = nodes₁ }))
                λ after v.
                  Gives-seq (Scan.check_part frame depth field (length start₁ - length after.rest))
                    λ three. gives (record {
                      nodes₁ = nodes₁;
                      rest₁ = rest₁;
                      named_by = k;
                      before = gap ++ v.gap;
                      value = v.tree;
                      from =
                          from
                          ∙ ap (λ t. gap ++ t) v.from
                          ∙ sym (append_assoc gap v.gap (write v.tree after.rest));
                      blank = IsBlank-append gap v.gap blank v.blank;
                      proper = v.proper;
                      shallow = v.shallow;
                      part = λ top.
                          part_fits frame depth field v.gap v.tree after.rest (space rest₁) v.from
                            top three;
                      counted = v.counted;
                      few = v.few;
                    })

    -- What stands after an entry, if what comes after a comma reads the other entries.
    separate_reads :
        (object : Bool) (keys : List Text) (nodes : ℕ) (start field : Text) (after : Scanner)
        (more : Text → Scanned Scanner)
        → HasEntry utf8 unescape frame object depth keys nodes start field after
        → ((rest : Text)
            → Gives
                (HasEntries utf8 unescape frame object depth
                  (if object then field ∷ keys else keys)
                  after.nodes
                  rest)
                (more rest))
        → (left : Text) → space after.rest ≡ left
        → Gives
            (HasEntries utf8 unescape frame object depth keys nodes start)
            (Scan.separate left (closing object) after.nodes more)
    unfolding Scan.separate
    separate_reads object keys nodes start field after more e later [] next_is = fails
    separate_reads object keys nodes start field after more e later (b ∷ rest) next_is =
        Gives-if (b == b',')
          (λ comma.
            Gives-mono (more rest)
              (λ end es.
                next_entry utf8 unescape frame object depth keys nodes start field after b rest end
                  e next_is (eq_true b b',' comma) es)
              (later rest))
          (λ other.
            Gives-if (b == closing object)
              (λ ends. gives (
                last_entry utf8 unescape frame object depth keys nodes start field after b rest e
                  next_is (eq_true b (closing object) ends)))
              (λ neither. fails))

    pub entries_reads :
        (object : Bool) (binding : Bool) (steps : ℕ) (keys : List Text) (nodes : ℕ) (start : Text)
        → Gives (HasEntries utf8 unescape frame object depth keys nodes start) (
            Scan.entries utf8 unescape frame scalar_max child object depth binding steps keys nodes
              start)
    unfolding Scan.entries
    entries_reads object binding zero keys nodes start = fails
    entries_reads object binding (suc steps) keys nodes start =
        Gives-bind (entry_reads object binding keys nodes start) λ (field, after) e.
          separate_reads object keys nodes start field after _ e
            (entries_reads object binding steps (if object then field ∷ keys else keys) after.nodes)
            (space after.rest) refl
