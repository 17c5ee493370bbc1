-- ===== src/Protocol/Json/Tree.antt =====
-- JSON as trees that keep their white space, beside the scanner of
-- crates/gaze-lens-protocol/src/bounds.rs.
use gaze_lens.Prelude.{
  ℕ, suc, ◌+◌, ◌≡◌, ◌≢◌, Bool, true, false, leb, if◌then◌else◌, Text, List, [], ◌∷◌, ◌++◌, all,
  Pairs, ◌⊎◌, codes, length, ◌≤◌,
}
use gaze_lens.Protocol.Strings.Shape.{IsQuoted}
use gaze_lens.Protocol.Bounds.{request_bytes, result_bytes}
use gaze_lens.Protocol.Json.{is_space, is_token, closing}

-- The key of an entry: none in an array; in an object a string and the field that it spells,
-- between white space.
pub data Key : Type 0 where
  unnamed : Key
  named : (before slice field after : Text) → Key

-- A string or a word; an object (true) or an array with nothing but white space; and one with
-- white space and entries, each with the white space around its value.
mutual
  pub data Json : Type 0 where
    scalar : Text → Json
    bare : Bool → Text → Json
    group : Bool → Text → Entries → Json

  pub data Entries : Type 0 where
    last : (key : Key) (before : Text) (value : Json) (after : Text) → Entries
    next : (key : Key) (before : Text) (value : Json) (after : Text) (later : Entries) → Entries

abbrev pub opening : Bool → ℕ
opening object = if object then b'{' else b'['

unfoldable pub write_key : Key → Text → Text
write_key unnamed t = t
write_key (named before slice field after) t = before ++ (slice ++ (after ++ b':' ∷ t))

-- The text of a tree, and `t` after it.
unfoldable mutual
  unfolding write_key

  pub write : Json → Text → Text
  write (scalar slice) t = slice ++ t
  write (bare object gap) t = opening object ∷ (gap ++ closing object ∷ t)
  write (group object gap es) t = opening object ∷ (gap ++ write_entries object es t)

  pub write_entries : Bool → Entries → Text → Text
  write_entries object (last key before v after) t =
      write_key key (before ++ write v (after ++ closing object ∷ t))
  write_entries object (next key before v after later) t =
      write_key key (before ++ write v (after ++ b',' ∷ write_entries object later t))

abbrev pub max : ℕ → ℕ → ℕ
max a b = if leb a b then b else a

-- How deep values nest.
unfoldable mutual
  pub height : Json → ℕ
  height (scalar slice) = 1
  height (bare object gap) = 1
  height (group object gap es) = suc (heights es)

  pub heights : Entries → ℕ
  heights (last key before v after) = height v
  heights (next key before v after later) = max (height v) (heights later)

abbrev pub key_size : Key → ℕ
key_size unnamed = 0
key_size (named before slice field after) = 1

-- How many values and keys there are.
unfoldable mutual
  pub size : Json → ℕ
  size (scalar slice) = 1
  size (bare object gap) = 1
  size (group object gap es) = suc (sizes es)

  pub sizes : Entries → ℕ
  sizes (last key before v after) = key_size key + size v
  sizes (next key before v after later) = key_size key + size v + sizes later

abbrev pub key_field : Key → List Text → List Text
key_field unnamed fields = fields
key_field (named before slice field after) fields = field ∷ fields

unfoldable pub fields : Entries → List Text
fields (last key before v after) = key_field key []
fields (next key before v after later) = key_field key (fields later)

abbrev pub IsBlank : Text → Type 0
IsBlank gap = all is_space gap ≡ true

module _ (decode : Text → Text → Type 0) where
  -- An object has keys, each a string that decodes to its field, and an array has none.
  abbrev pub KeyOk : Bool → Key → Type 0
  KeyOk false unnamed = Unit
  KeyOk true (named before slice field after) =
      IsBlank before × IsQuoted slice × decode slice field × IsBlank after
  KeyOk true unnamed = ⊥
  KeyOk false (named before slice field after) = ⊥

  -- Grammatical, with no field twice in an object.
  unfoldable mutual
    pub Proper : Json → Type 0
    Proper (scalar slice) = (is_token slice ≡ true) ⊎ IsQuoted slice
    Proper (bare object gap) = IsBlank gap
    Proper (group object gap es) = IsBlank gap × ProperEntries object es × Pairs ◌≢◌ (fields es)

    pub ProperEntries : Bool → Entries → Type 0
    ProperEntries object (last key before v after) =
        KeyOk object key × IsBlank before × Proper v × IsBlank after
    ProperEntries object (next key before v after later) =
        KeyOk object key × IsBlank before × Proper v × IsBlank after × ProperEntries object later

-- The ceilings that a frame sets to the texts of two of its parts.
abbrev pub PartFits : Text → Json → Type 0
PartFits field v =
    (field ≡ codes "args" → length (write v []) ≤ request_bytes)
    × (field ≡ codes "result" → length (write v []) ≤ result_bytes)

abbrev pub KeyFits : Key → Json → Type 0
KeyFits unnamed v = Unit
KeyFits (named before slice field after) v = PartFits field v

unfoldable pub PartsFit : Entries → Type 0
PartsFit (last key before v after) = KeyFits key v
PartsFit (next key before v after later) = KeyFits key v × PartsFit later

abbrev pub FrameFits : Json → Type 0
FrameFits (scalar slice) = Unit
FrameFits (bare object gap) = Unit
FrameFits (group object gap es) = PartsFit es
