-- ===== src/Protocol/Json.antt =====
-- The scanner of JSON, scan_json and Scanner of crates/gaze-lens-protocol/src/bounds.rs.
pub mod Tree
pub mod Reads
pub mod Entries
pub mod Loop
pub mod Lengths
pub mod Sound
pub mod Settled
mod Tests
use gaze_lens.Prelude.{
  ℕ, zero, suc, ◌+◌, ◌-◌, Bool, true, false, not, ◌&&◌, ◌||◌, ◌==◌, ℕ_eq, ℕ_discrete, Text-eq,
  Text-discrete, if◌then◌else◌, Text, codes, List, [], ◌∷◌, Option, none, some, length, any,
  is_empty, ok, err, ok_or, ◌>>=◌, ◌>>◌,
}
use gaze_lens.Protocol.Faults.{out_of_rounds, Scanned, hold, within, malformed, exceeded}
use gaze_lens.Protocol.Bounds.{scalar_bytes, request_bytes, result_bytes}
use gaze_lens.Protocol.Query.{number}
use gaze_lens.Protocol.Strings.{expect, first, between, string}

abbrev pub max_depth : ℕ
max_depth = 32

abbrev pub max_nodes : ℕ
max_nodes = 16_384

-- Scanner: the text that is left, and the nodes counted.
pub record Scanner : Type 0 where
  pub rest : Text
  pub nodes : ℕ

unfoldable pub is_space : ℕ → Bool
unfolding ℕ_discrete
is_space b = b == b' ' || b == b'\t' || b == b'\r' || b == b'\n'

unfoldable pub space : Text → Text
unfolding is_space
space [] = []
space (b ∷ rest) = let later = space rest in if is_space b then later else b ∷ rest

abbrev pub node : ℕ → Scanned ℕ
node nodes = do within (nodes + 1) max_nodes; ok (nodes + 1)

-- What ends a token that is not a string.
unfoldable pub is_end : ℕ → Bool
unfolding is_space ℕ_discrete
is_end b = is_space b || b == b',' || b == b']' || b == b'}'

unfoldable pub skip_token : Text → Text
unfolding is_end
skip_token [] = []
skip_token (b ∷ rest) = let later = skip_token rest in if is_end b then b ∷ rest else later

unfoldable pub is_token : Text → Bool
unfolding number Text-discrete
is_token t = t == codes "null" || t == codes "true" || t == codes "false" || number t

unfoldable pub token : Text → Scanned Text
unfolding skip_token is_token first
token start = do
  let word = between start (skip_token start)
  hold (is_token word)
  within (length word) scalar_bytes
  ok (skip_token start)

unfoldable pub starts : ℕ → Text → Bool
unfolding ℕ_discrete
starts c [] = false
starts c (b ∷ rest) = b == c

-- A key's slice without its quotes.
unfoldable pub unquoted : Text → Text
unfolding first
unquoted [] = []
unquoted (b ∷ rest) = first (length rest - 1) rest

abbrev pub closing : Bool → ℕ
closing object = if object then b'}' else b']'

-- The bytes that the parts of a frame may take.
unfoldable pub check_part : Bool → ℕ → Text → ℕ → Scanned (Unit {0})
unfolding Text-discrete ℕ_discrete
check_part frame depth field size =
    if frame && depth == 1
    then if field == codes "args"
      then within size request_bytes
      else if field == codes "result"
      then within size result_bytes
      else ok tt
    else ok tt

-- What stands after an entry: a comma and more, or the end.
unfoldable pub separate : Text → ℕ → ℕ → (Text → Scanned Scanner) → Scanned Scanner
unfolding ℕ_discrete
separate [] end nodes more = err malformed
separate (b ∷ rest) end nodes more =
    if b == b','
    then more rest
    else if b == end
    then ok (record { rest = rest; nodes = nodes })
    else err malformed

-- What std::str::from_utf8 accepts, and what serde_json decodes a string to.
module _ (utf8 : Text → Bool) (unescape : Text → Option Text) where
  unfoldable pub field_of : Text → Scanned Text
  unfolding unquoted ℕ_discrete
  field_of key = do
    hold (utf8 key)
    if any (λ b. b == b'\\') key then ok_or malformed (unescape key) else ok (unquoted key)

  -- The key of an entry: the node, the string, its field that no key before has, and the colon.
  unfoldable pub named : List Text → ℕ → Text → Scanned (Text × ℕ × Text)
  unfolding space field_of expect string Text-discrete
  named keys nodes rest = do
    nodes₁ ← node nodes
    (key, rest₁) ← string scalar_bytes false (space rest)
    field ← field_of key
    hold (not (any (λ k. k == field) keys))
    rest₂ ← expect b':' (space rest₁)
    ok (field, nodes₁, rest₂)

  module _ (frame : Bool) (scalar_max : ℕ) where
    -- What the rest of the source of an entry is, `child` the call of `value` one deeper: the scanner after
    -- the value, and the field.
    unfoldable pub entry :
        (Bool → ℕ → Scanner → Scanned Scanner)
        → Bool
        → ℕ
        → Bool
        → List Text
        → ℕ
        → Text
        → Scanned (Text × Scanner)
    unfolding space named starts check_part Text-discrete ℕ_discrete
    entry child object depth binding keys nodes rest = do
      (field, nodes₁, rest₁) ← if object then named keys nodes rest else ok ([], nodes, rest)
      let start = space rest₁
      let binding_field = binding && object
      hold (not binding_field || starts b'"' start)
      let child_binding = frame && depth == 1 && field == codes "binding"
      hold (not child_binding || starts b'{' start)
      let limit =
          if binding_field
          then 32
          else if frame && field == codes "base64"
          then scalar_bytes + scalar_bytes
          else scalar_max
      after ← child (binding_field || child_binding) limit (record { rest = start; nodes = nodes₁ })
      check_part frame depth field (length start - length after.rest)
      ok (field, after)

    -- The loop over the entries, a round for each byte and one more.
    unfoldable pub entries :
        (Bool → ℕ → Scanner → Scanned Scanner)
        → Bool
        → ℕ
        → Bool
        → ℕ
        → List Text
        → ℕ
        → Text
        → Scanned Scanner
    unfolding entry separate space
    entries child object depth binding zero keys nodes rest = err out_of_rounds
    entries child object depth binding (suc steps) keys nodes rest =
        entry child object depth binding keys nodes rest >>= λ (field, after).
        separate (space after.rest) (closing object) after.nodes (
          entries child object depth binding steps (if object then field ∷ keys else keys)
            after.nodes)

    -- An object or an array behind its bracket.
    unfoldable pub group :
        (Bool → ℕ → Scanner → Scanned Scanner) → Bool → ℕ → Bool → ℕ → Text → Scanned Scanner
    unfolding space entries starts expect
    group child object depth binding nodes rest =
        if starts (closing object) (space rest)
        then (expect (closing object) (space rest) >>= λ later.
            ok (record { rest = later; nodes = nodes }))
        else entries child object depth binding (length rest + 1) [] nodes (space rest)

    -- What stands at the first byte that is not white space.
    unfoldable pub body :
        (Bool → ℕ → Scanner → Scanned Scanner) → ℕ → Bool → ℕ → ℕ → Text → Scanned Scanner
    unfolding group string token ℕ_discrete
    body child depth binding limit nodes [] = err malformed
    body child depth binding limit nodes (b ∷ rest) =
        if b == b'"'
        then (string limit binding (b ∷ rest) >>= λ (slice, later).
            ok (record { rest = later; nodes = nodes }))
        else if b == b'{' || b == b'['
        then group child (b == b'{') depth binding nodes rest
        else do later ← token (b ∷ rest); ok (record { rest = later; nodes = nodes })

    -- Scanner::value. `levels` bounds how deep values nest, which the source bounds by its check of
    -- the depth.
    unfoldable pub value : ℕ → ℕ → Bool → ℕ → Scanner → Scanned Scanner
    unfolding space body
    value zero depth binding limit s = err out_of_rounds
    value (suc levels) depth binding limit s = do
      within depth max_depth
      nodes ← node s.nodes
      body (value levels (depth + 1)) depth binding limit nodes (space s.rest)

  unfoldable pub scan_json : Text → ℕ → Bool → ℕ → Scanned (Unit {0})
  unfolding value
  scan_json bytes max frame scalar_max = do
    within (length bytes) max
    hold (utf8 bytes)
    s ←
        value frame scalar_max (max_depth + 1) 1 false scalar_max
          (record { rest = bytes; nodes = 0 })
    hold (is_empty (space s.rest))

  abbrev pub json : Text → ℕ → Scanned (Unit {0})
  json bytes max = scan_json bytes max false (scalar_bytes + scalar_bytes)

  abbrev pub frame_json : Text → ℕ → Scanned (Unit {0})
  frame_json bytes max = scan_json bytes max true scalar_bytes

  -- JSON source values use the source-scalar ceiling.
  abbrev pub source_json : Text → Scanned (Unit {0})
  source_json bytes = scan_json bytes result_bytes false scalar_bytes
