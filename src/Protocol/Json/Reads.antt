-- ===== src/Protocol/Json/Reads.antt =====
-- White space, words and keys that the scanner of crates/gaze-lens-protocol/src/bounds.rs reads.
use gaze_lens.Prelude.{
  ℕ, ◌+◌, ◌≤◌, ◌≡◌, ◌≢◌, refl, sym, ap, ◌∙◌, Bool, true, false, not, ◌==◌, ℕ_eq, Text-eq,
  Text-discrete, is_yes-holds, if◌then◌else◌, Text, List, [], ◌∷◌, ◌++◌, any, length, All, ok,
  Bool-cases, inl, inr, Option, arith, Gives, gives, Gives-of, Gives-bind, Gives-seq,
}
use gaze_lens.Protocol.Faults.{hold, within}
use gaze_lens.Protocol.Bounds.{scalar_bytes}
use gaze_lens.Protocol.Strings.{between}
use gaze_lens.Protocol.Strings.Shape.{expect_is, between-append, string-IsQuoted}
use gaze_lens.Protocol.Json as Scan
use gaze_lens.Protocol.Json.{
  is_space, space, is_end, skip_token, is_token, token, node, max_nodes, field_of,
}
use gaze_lens.Protocol.Json.Tree.{
  Key, named, write_key, IsBlank, KeyOk, Json, PartFits, KeyFits, key_size, key_field,
}

pub space_reads : (start : Text) → (gap : Text) × (start ≡ gap ++ space start) × IsBlank gap
unfolding space
space_reads [] = ([], refl, refl)
space_reads (b ∷ rest) = elim (Bool-cases (is_space b)) [
  | inl blank ↦
      let (gap, from, blanks) = space_reads rest in
      (b ∷ gap, rw blank (ap (λ t. b ∷ t) from), rw (blank, blanks) refl)
  | inr other ↦ ([], rw other refl, refl)
]

pub IsBlank-append : (xs ys : Text) → IsBlank xs → IsBlank ys → IsBlank (xs ++ ys)
IsBlank-append [] ys p q = q
IsBlank-append (x ∷ xs) ys p q =
    let head : is_space x ≡ true = ground arith in
    let tail : IsBlank xs = ground arith in rw (head, IsBlank-append xs ys tail q) refl

skip_token-suffix : (start : Text) → (word : Text) × (start ≡ word ++ skip_token start)
unfolding skip_token
skip_token-suffix [] = ([], refl)
skip_token-suffix (b ∷ rest) = elim (Bool-cases (is_end b)) [
  | inl ends ↦ ([], rw ends refl)
  | inr other ↦
      let (word, from) = skip_token-suffix rest in (b ∷ word, rw other (ap (λ t. b ∷ t) from))
]

pub hold-true : (b : Bool) → hold b ≡ ok tt → b ≡ true
hold-true b h = ground arith

pub token_reads :
    (start : Text)
    → Gives (λ rest. (word : Text) × (start ≡ word ++ rest) × (is_token word ≡ true)) (token start)
unfolding token
token_reads start =
    let (word, from) = skip_token-suffix start in
    let slice : between start (skip_token start) ≡ word =
      ap (λ t. between t (skip_token start)) from ∙ between-append word (skip_token start) in
    Gives-seq (hold (is_token (between start (skip_token start)))) λ good.
      Gives-seq (within (length (between start (skip_token start))) scalar_bytes) λ small. gives (
        word,
        from,
        ap is_token (sym slice) ∙ hold-true (is_token (between start (skip_token start))) good,
      )

pub node_counts : (n : ℕ) → Gives (λ m. (m ≡ n + 1) × (m ≤ max_nodes)) (node n)
node_counts n = Gives-seq (within (n + 1) max_nodes) λ small. gives (refl, ground arith)

same_text : (field k : Text) → k ≡ field → (k == field) ≡ false → ⊥
same_text field k e h = is_yes-holds (Text-discrete k field) e h

hold-not : (b : Bool) → hold (not b) ≡ ok tt → b ≡ false
hold-not b h = ground arith

differs_from_all :
    (field : Text) (keys : List Text)
    → any (λ k. k == field) keys ≡ false
    → All (λ k. field ≢ k) keys
differs_from_all field [] h = tt
differs_from_all field (k ∷ keys) h =
    (λ e. same_text field k (sym e) (ground arith), differs_from_all field keys (ground arith))

module _ (utf8 : Text → Bool) (unescape : Text → Option Text) where
  abbrev pub Decodes : Text → Text → Type 0
  Decodes slice field = field_of utf8 unescape slice ≡ ok field

  -- The key that stands at `start`, before `rest`, and what it adds.
  pub record HasKey (object : Bool) (keys : List Text) (nodes : ℕ) (start field : Text) (after : ℕ)
      (rest : Text) : Type 0 where
    pub key : Key
    pub from : start ≡ write_key key rest
    pub right : KeyOk Decodes object key
    pub counted : after ≡ nodes + key_size key
    pub few : nodes ≤ max_nodes → after ≤ max_nodes
    pub new : All (λ k. field ≢ k) (if object then keys else [])
    pub fits : (v : Json) → PartFits field v → KeyFits key v
    pub adds : (later : List Text) → key_field key later ≡ (if object then field ∷ later else later)

  pub named-HasKey :
      (keys : List Text) (nodes : ℕ) (start : Text)
      → Gives
          (λ (field, after, rest). HasKey true keys nodes start field after rest)
          (Scan.named utf8 unescape keys nodes start)
  unfolding Scan.named write_key
  named-HasKey keys nodes start =
      let (gap, from, blank) = space_reads start in
      Gives-bind (node_counts nodes) λ nodes₁ (counted, few).
        Gives-bind (string-IsQuoted scalar_bytes false (space start))
          λ (slice, rest₁) (reads, quoted).
            Gives-bind (Gives-of (field_of utf8 unescape slice) (λ field is. is)) λ field decodes.
              Gives-seq (hold (not (any (λ k. k == field) keys))) λ other.
                let (between, then_colon, blanks) = space_reads rest₁ in
                Gives-bind (expect_is b':' (space rest₁)) λ rest₂ colon. gives (record {
                  key = named gap slice field between;
                  from =
                      from
                      ∙ ap (λ t. gap ++ t)
                          (reads
                            ∙ ap (λ t. slice ++ t) (then_colon ∙ ap (λ t. between ++ t) colon));
                  right = (blank, quoted, decodes, blanks);
                  counted = counted;
                  few = λ h. few;
                  new = differs_from_all field keys (hold-not (any (λ k. k == field) keys) other);
                  fits = λ v h. h;
                  adds = λ later. refl;
                })
