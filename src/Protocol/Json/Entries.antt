-- ===== src/Protocol/Json/Entries.antt =====
-- The entries of objects and arrays that the scanner of crates/gaze-lens-protocol/src/bounds.rs
-- reads, if the values in them are read.
use gaze_lens.Prelude.{
  ℕ, ◌+◌, ◌≤◌, ◌≡◌, ◌≢◌, refl, sym, ap, ◌∙◌, Bool, true, false, ◌&&◌, ◌==◌, ℕ_eq, Text-eq,
  if◌then◌else◌, Text, List, [], ◌∷◌, ◌++◌, All, All-mono, Pairs, ok, Option, arith, Gives, gives,
}
use gaze_lens.Protocol.Faults.{Scanned}
use gaze_lens.Protocol.Json as Scan
use gaze_lens.Protocol.Json.{
  Scanner, is_space, space, is_token, token, node, max_nodes, max_depth, closing, starts, field_of,
}
use gaze_lens.Protocol.Json.Tree.{
  unnamed, Json, Entries, last, next, write_key, write, write_entries, IsBlank, height, heights,
  size, sizes, fields, PartFits, PartsFit, FrameFits, Proper, ProperEntries,
}
use gaze_lens.Protocol.Json.Reads.{space_reads, Decodes, HasKey, named-HasKey}

-- What a new field keeps of those that an object has.
fresh_next :
    (object : Bool) (field : Text) (keys fs : List Text)
    → All (λ k. field ≢ k) (if object then keys else [])
    → All (λ f. All (λ k. f ≢ k) (if object then field ∷ keys else keys)) fs
    → Pairs ◌≢◌ fs
    → Pairs ◌≢◌ (if object then field ∷ fs else fs)
      × All (λ f. All (λ k. f ≢ k) keys) (if object then field ∷ fs else fs)
fresh_next false field keys fs new apart pairs = (pairs, apart)
fresh_next true field keys fs new apart pairs = (
  (All-mono {P = λ f. All (λ k. f ≢ k) (field ∷ keys)} (λ f h e. h.0 (sym e)) fs apart, pairs),
  (new, All-mono {P = λ f. All (λ k. f ≢ k) (field ∷ keys)} (λ f h. h.1) fs apart),
)

module _ (utf8 : Text → Bool) (unescape : Text → Option Text) where
  -- A value that stands behind white space at `s`, before what `after` has left.
  pub record HasValue (frame : Bool) (depth : ℕ) (s after : Scanner) : Type 0 where
    pub gap : Text
    pub tree : Json
    pub from : s.rest ≡ gap ++ write tree after.rest
    pub blank : IsBlank gap
    pub proper : Proper (Decodes utf8 unescape) tree
    pub shallow : depth + height tree ≤ max_depth + 1
    pub parts : (frame && depth == 1) ≡ true → FrameFits tree
    pub counted : after.nodes ≡ s.nodes + size tree
    pub few : after.nodes ≤ max_nodes

  -- What `value` promises of its call on each part.
  abbrev pub Reader : Bool → ℕ → (Bool → ℕ → Scanner → Scanned Scanner) → Type 0
  Reader frame depth child =
      (binding : Bool) (limit : ℕ) (s : Scanner)
      → Gives (HasValue frame depth s) (child binding limit s)

  -- An entry at `start`, before what `after` has left.
  pub record HasEntry (frame object : Bool) (depth : ℕ) (keys : List Text) (nodes : ℕ)
      (start field : Text) (after : Scanner) : Type 0 where
    pub nodes₁ : ℕ
    pub rest₁ : Text
    pub named_by : HasKey utf8 unescape object keys nodes start field nodes₁ rest₁
    pub before : Text
    pub value : Json
    pub from : rest₁ ≡ before ++ write value after.rest
    pub blank : IsBlank before
    pub proper : Proper (Decodes utf8 unescape) value
    pub shallow : depth + 1 + height value ≤ max_depth + 1
    pub part : (frame && depth == 1) ≡ true → PartFits field value
    pub counted : after.nodes ≡ nodes₁ + size value
    pub few : after.nodes ≤ max_nodes

  pub key_reads :
      (object : Bool) (keys : List Text) (nodes : ℕ) (start : Text)
      → Gives
          (λ (field, after, rest). HasKey utf8 unescape object keys nodes start field after rest)
          (if object then Scan.named utf8 unescape keys nodes start else ok ([], nodes, start))
  unfolding write_key
  key_reads true keys nodes start = named-HasKey utf8 unescape keys nodes start
  key_reads false keys nodes start = gives (record {
    key = unnamed;
    from = refl;
    right = tt;
    counted = omega arith;
    few = λ h. h;
    new = tt;
    fits = λ v h. tt;
    adds = λ later. refl;
  })

  -- The entries at `start` up to the closing bracket.
  pub record HasEntries (frame object : Bool) (depth : ℕ) (keys : List Text) (nodes : ℕ)
      (start : Text) (after : Scanner) : Type 0 where
    pub es : Entries
    pub from : start ≡ write_entries object es after.rest
    pub proper : ProperEntries (Decodes utf8 unescape) object es
    pub pairs : Pairs ◌≢◌ (fields es)
    pub apart : All (λ f. All (λ k. f ≢ k) keys) (fields es)
    pub shallow : depth + 1 + heights es ≤ max_depth + 1
    pub parts : (frame && depth == 1) ≡ true → PartsFit es
    pub counted : after.nodes ≡ nodes + sizes es
    pub few : after.nodes ≤ max_nodes

  pub last_entry :
      (frame object : Bool) (depth : ℕ) (keys : List Text) (nodes : ℕ) (start field : Text)
      (after : Scanner) (b : ℕ) (rest : Text)
      → HasEntry frame object depth keys nodes start field after
      → space after.rest ≡ b ∷ rest
      → b ≡ closing object
      → HasEntries frame object depth keys nodes start (record { rest = rest; nodes = after.nodes })
  unfolding write_entries PartsFit ProperEntries fields heights sizes
  last_entry frame object depth keys nodes start field after b rest e next_is ends =
      let k = e.named_by in
      let (gap, from, blank) = space_reads after.rest in
      let (pairs, apart) = fresh_next object field keys [] k.new tt tt in
      record {
        es = last k.key e.before e.value gap;
        from =
            k.from
            ∙ ap (write_key k.key) (
                e.from
                ∙ ap (λ t. e.before ++ write e.value t)
                    (from ∙ ap (λ t. gap ++ t) (next_is ∙ ap (λ x. x ∷ rest) ends)));
        proper = (k.right, e.blank, e.proper, blank);
        pairs = rw (k.adds []) pairs;
        apart = rw (k.adds []) apart;
        shallow = e.shallow;
        parts = λ top. k.fits e.value (e.part top);
        counted = omega (arith, e.counted, k.counted);
        few = e.few;
      }

  pub next_entry :
      (frame object : Bool) (depth : ℕ) (keys : List Text) (nodes : ℕ) (start field : Text)
      (after : Scanner) (b : ℕ) (rest : Text) (end : Scanner)
      → HasEntry frame object depth keys nodes start field after
      → space after.rest ≡ b ∷ rest
      → b ≡ b','
      → HasEntries frame object depth (if object then field ∷ keys else keys) after.nodes rest end
      → HasEntries frame object depth keys nodes start end
  unfolding write_entries PartsFit ProperEntries fields heights sizes
  next_entry frame object depth keys nodes start field after b rest end e next_is comma es =
      let k = e.named_by in
      let (gap, from, blank) = space_reads after.rest in
      let (pairs, apart) = fresh_next object field keys (fields es.es) k.new es.apart es.pairs in
      record {
        es = next k.key e.before e.value gap es.es;
        from =
            k.from
            ∙ ap (write_key k.key) (
                e.from
                ∙ ap (λ t. e.before ++ write e.value t)
                    (from
                      ∙ ap (λ t. gap ++ t)
                          (next_is ∙ ap (λ x. x ∷ rest) comma ∙ ap (λ t. b',' ∷ t) es.from)));
        proper = (k.right, e.blank, e.proper, blank, es.proper);
        pairs = rw (k.adds (fields es.es)) pairs;
        apart = rw (k.adds (fields es.es)) apart;
        shallow = ground (arith, e.shallow, es.shallow);
        parts = λ top. (k.fits e.value (e.part top), es.parts top);
        counted = omega (arith, e.counted, k.counted, es.counted);
        few = es.few;
      }
