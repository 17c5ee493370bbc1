-- ===== src/Protocol/Json/Sound.antt =====
-- What the scanner of crates/gaze-lens-protocol/src/bounds.rs accepts, as a tree.
use gaze_lens.Prelude.{
  ℕ, zero, suc, ◌+◌, ◌≤◌, ◌≡◌, refl, sym, ap, ◌∙◌, Bool, true, false, ◌&&◌, ◌||◌, ◌==◌, ℕ_eq,
  ℕ_discrete, Text-eq, Text, [], ◌∷◌, ◌++◌, append-nil, all, length, ok, inl, inr, Option, arith,
  is_empty, Gives, gives, fails, Gives-of, Gives-ok, Gives-if, Gives-bind, Gives-seq, Gives-mono,
}
use gaze_lens.Protocol.Faults.{Scanned, hold, within}
use gaze_lens.Protocol.Strings.Shape.{expect_is, string-IsQuoted}
use gaze_lens.Protocol.Json as Scan
use gaze_lens.Protocol.Json.{
  Scanner, is_space, space, is_token, token, node, max_nodes, max_depth, closing, starts, field_of,
}
use gaze_lens.Protocol.Json.Tree.{
  Json, scalar, bare, group, write, IsBlank, opening, height, size, Proper, FrameFits,
}
use gaze_lens.Protocol.Json.Reads.{space_reads, token_reads, node_counts, hold-true, Decodes}
use gaze_lens.Protocol.Json.Entries.{Reader}
use gaze_lens.Protocol.Json.Loop.{entries_reads}

opening_is : (b : ℕ) → (b == b'{' || b == b'[') ≡ true → opening (b == b'{') ≡ b
unfolding ℕ_discrete
opening_is b h = ground arith

cap_fits : (n most : ℕ) → within n most ≡ ok tt → n ≤ most
cap_fits n most h = ground arith

no_more : (t : Text) → hold (is_empty t) ≡ ok tt → t ≡ []
no_more [] h = refl
no_more (b ∷ t) h = absurd (ground arith)

-- A text with nothing behind its white space.
IsBlank-rest : (t : Text) → hold (is_empty (space t)) ≡ ok tt → IsBlank t
IsBlank-rest t h =
    let (gap, from, blank) = space_reads t in
    let whole : t ≡ gap = from ∙ ap (λ x. gap ++ x) (no_more (space t) h) ∙ append-nil gap in
    ap (all is_space) whole ∙ blank

module _ (utf8 : Text → Bool) (unescape : Text → Option Text) where
  module _ (frame : Bool) (scalar_max depth : ℕ) (child : Bool → ℕ → Scanner → Scanned Scanner)
      (reads : Reader utf8 unescape frame (depth + 1) child) where
    -- What stands where a value starts, its node counted in `nodes` already.
    record HasBody (nodes : ℕ) (start : Text) (after : Scanner) : Type 0 where
      tree : Json
      from : start ≡ write tree after.rest
      proper : Proper (Decodes utf8 unescape) tree
      shallow : depth + height tree ≤ max_depth + 1
      parts : (frame && depth == 1) ≡ true → FrameFits tree
      counted : after.nodes + 1 ≡ nodes + size tree
      few : after.nodes ≤ max_nodes

    group_reads :
        (object : Bool) (binding : Bool) (nodes : ℕ) (rest : Text)
        → depth ≤ max_depth
        → nodes ≤ max_nodes
        → Gives
            (HasBody nodes (opening object ∷ rest))
            (Scan.group utf8 unescape frame scalar_max child object depth binding nodes rest)
    unfolding Scan.group write Proper height size
    group_reads object binding nodes rest deep few =
        let (gap, from, blank) = space_reads rest in
        Gives-if (starts (closing object) (space rest))
          (λ closes. Gives-bind (expect_is (closing object) (space rest)) λ later is.
            gives (record {
              tree = bare object gap;
              from = ap (λ t. opening object ∷ t) (from ∙ ap (λ t. gap ++ t) is);
              proper = blank;
              shallow = omega arith;
              parts = λ top. tt;
              counted = refl;
              few = few;
            }))
          (λ open_so.
            Gives-mono _
              (λ after h. record {
                tree = group object gap h.es;
                from = ap (λ t. opening object ∷ t) (from ∙ ap (λ t. gap ++ t) h.from);
                proper = (blank, h.proper, h.pairs);
                shallow = omega (arith, h.shallow);
                parts = h.parts;
                counted = omega (arith, h.counted);
                few = h.few;
              })
              (entries_reads utf8 unescape frame scalar_max depth child reads object binding
                (length rest + 1) [] nodes (space rest)))

    body_reads :
        (binding : Bool) (limit nodes : ℕ) (start : Text)
        → depth ≤ max_depth
        → nodes ≤ max_nodes
        → Gives
            (HasBody nodes start)
            (Scan.body utf8 unescape frame scalar_max child depth binding limit nodes start)
    unfolding Scan.body write Proper height size
    body_reads binding limit nodes [] deep few = fails
    body_reads binding limit nodes (b ∷ rest) deep few =
        Gives-if (b == b'"')
          (λ quote.
            Gives-bind (string-IsQuoted limit binding (b ∷ rest)) λ (slice, later) (from, quoted).
              gives (record {
                tree = scalar slice;
                from = from;
                proper = inr quoted;
                shallow = omega arith;
                parts = λ top. tt;
                counted = refl;
                few = few;
              }))
          (λ other.
            Gives-if (b == b'{' || b == b'[')
              (λ bracket.
                let is : opening (b == b'{') ≡ b = opening_is b bracket in
                Gives-mono _
                  (λ after h. record {
                    tree = h.tree;
                    from = ap (λ x. x ∷ rest) (sym is) ∙ h.from;
                    proper = h.proper;
                    shallow = h.shallow;
                    parts = h.parts;
                    counted = h.counted;
                    few = h.few;
                  })
                  (group_reads (b == b'{') binding nodes rest deep few))
              (λ neither. Gives-bind (token_reads (b ∷ rest)) λ later (word, from, good).
                gives (record {
                  tree = scalar word;
                  from = from;
                  proper = inl good;
                  shallow = omega arith;
                  parts = λ top. tt;
                  counted = refl;
                  few = few;
                })))

  -- Reading a value, from the levels of nesting left.
  pub value_reads :
      (frame : Bool) (scalar_max levels depth : ℕ)
      → Reader utf8 unescape frame depth (Scan.value utf8 unescape frame scalar_max levels depth)
  unfolding Scan.value
  value_reads frame scalar_max zero depth binding limit s = fails
  value_reads frame scalar_max (suc levels) depth binding limit s =
      let (gap, from, blank) = space_reads s.rest in
      let child = Scan.value utf8 unescape frame scalar_max levels (depth + 1) in
      Gives-seq (within depth max_depth) λ deep.
        Gives-bind (node_counts s.nodes) λ nodes (counted, few).
          Gives-mono _
            (λ after h. record {
              gap = gap;
              tree = h.tree;
              from = from ∙ ap (λ t. gap ++ t) h.from;
              blank = blank;
              proper = h.proper;
              shallow = h.shallow;
              parts = h.parts;
              counted = omega (arith, h.counted, counted);
              few = h.few;
            })
            (body_reads frame scalar_max depth child
              (value_reads frame scalar_max levels (depth + 1)) binding limit nodes (space s.rest)
              (ground arith) few)

  -- The text of one tree between white space, whose nesting, nodes and parts are within the
  -- ceilings.
  pub record IsAdmitted (frame : Bool) (bytes : Text) : Type 0 where
    pub before : Text
    pub tree : Json
    pub after : Text
    pub from : bytes ≡ before ++ write tree after
    pub blank : IsBlank before × IsBlank after
    pub proper : Proper (Decodes utf8 unescape) tree
    pub shallow : height tree ≤ max_depth
    pub few : size tree ≤ max_nodes
    pub parts : frame ≡ true → FrameFits tree

  -- What scan_json accepts is UTF-8 of at most the bytes given, and the text of one JSON value
  -- between white space: a number or word, a string that closes where it ends, an object whose keys
  -- decode to different fields, or an array; values nest at most 32 deep, and values and keys are at
  -- most 16384. In a frame the outermost object's field args has a text of at most 65536 bytes, and its
  -- field result one of at most 131072.
  pub scan_json-IsAdmitted :
      (bytes : Text) (most : ℕ) (frame : Bool) (scalar_max : ℕ)
      → Scan.scan_json utf8 unescape bytes most frame scalar_max ≡ ok tt
      → IsAdmitted frame bytes × (length bytes ≤ most) × (utf8 bytes ≡ true)
  unfolding Scan.scan_json
  scan_json-IsAdmitted bytes most frame scalar_max h =
      Gives-ok {P = λ _. IsAdmitted frame bytes × (length bytes ≤ most) × (utf8 bytes ≡ true)} tt
        (Gives-seq (within (length bytes) most) λ fits. Gives-seq (hold (utf8 bytes)) λ valid.
          Gives-bind
            (value_reads frame scalar_max (max_depth + 1) 1 false scalar_max
              (record { rest = bytes; nodes = 0 }))
            λ s v. Gives-of (hold (is_empty (space s.rest))) λ t is. (
              record {
                before = v.gap;
                tree = v.tree;
                after = s.rest;
                from = v.from;
                blank = (v.blank, IsBlank-rest s.rest is);
                proper = v.proper;
                shallow = omega (arith, v.shallow);
                few = omega (arith, v.few, v.counted);
                parts = λ framed. v.parts (rw framed refl);
              },
              cap_fits (length bytes) most fits,
              hold-true (utf8 bytes) valid,
            ))
        h
