-- ===== src/Protocol/Strings.antt =====
-- Strings of JSON, Scanner::hex_quad and Scanner::string of
-- crates/gaze-lens-protocol/src/bounds.rs. The index of the source is the text that is left.
pub mod Shape
pub mod Settled
use gaze_lens.Prelude.{
  ℕ, zero, suc, ◌+◌, ◌-◌, ◌*◌, Bool, true, false, not, ◌&&◌, ◌||◌, ◌==◌, ℕ_eq, ℕ_discrete, leb, ltb,
  if◌then◌else◌, Text, [], ◌∷◌, Option, none, some, length, is_digit, ok, err, ok_or, ◌>>=◌, ◌>>◌,
}
use gaze_lens.Protocol.Faults.{Scanned, hold, within, malformed, out_of_rounds}

unfoldable pub hex_digit : ℕ → Option ℕ
hex_digit b =
    if is_digit b
    then some (b - b'0')
    else if leb b'a' b && leb b b'f'
    then some (b - b'a' + 10)
    else if leb b'A' b && leb b b'F'
    then some (b - b'A' + 10)
    else none

-- The loop of hex_quad, so many digits to go.
unfoldable pub hex_digits : ℕ → ℕ → Text → Scanned (ℕ × Text)
hex_digits zero value rest = ok (value, rest)
hex_digits (suc n) value [] = err malformed
hex_digits (suc n) value (b ∷ rest) = do
  d ← ok_or malformed (hex_digit b)
  hex_digits n (value * 16 + d) rest

abbrev pub hex_quad : Text → Scanned (ℕ × Text)
hex_quad rest = hex_digits 4 0 rest

-- A byte that must stand next.
unfoldable pub expect : ℕ → Text → Scanned Text
unfolding ℕ_discrete
expect c [] = err malformed
expect c (b ∷ rest) = if b == c then ok rest else err malformed

abbrev pub is_high : ℕ → Bool
is_high cp = leb 0xd800 cp && leb cp 0xdbff

abbrev pub is_low : ℕ → Bool
is_low cp = leb 0xdc00 cp && leb cp 0xdfff

-- The other half of the surrogate `cp`, after a second `\u`.
unfoldable pub pair : ℕ → Text → Scanned (ℕ × Text)
unfolding hex_digits expect
pair cp rest = do
  rest₁ ← expect b'\\' rest
  rest₂ ← expect b'u' rest₁
  (low, rest₃) ← hex_quad rest₂
  hold (is_low low)
  ok (0x10000 + (cp - 0xd800) * 1024 + low - 0xdc00, rest₃)

-- The code point after `\u`.
unfoldable pub code_point : Text → Scanned (ℕ × Text)
unfolding pair
code_point rest = do
  (cp, later) ← hex_quad rest
  if is_high cp then pair cp later else ok (cp, later)

-- `char::from_u32`: no surrogate, and within Unicode.
abbrev pub is_char : ℕ → Bool
is_char cp = ltb cp 0xd800 || leb 0xe000 cp && ltb cp 0x110000

abbrev pub len_utf8 : ℕ → ℕ
len_utf8 cp = if ltb cp 0x80 then 1 else if ltb cp 0x800 then 2 else if ltb cp 0x10000 then 3 else 4

unfoldable pub is_short : ℕ → Bool
unfolding ℕ_discrete
is_short b =
    b == b'"'
    || b == b'\\'
    || b == b'/'
    || b == b'b'
    || b == b'f'
    || b == b'n'
    || b == b'r'
    || b == b't'

-- What follows `\u`: the decoded length, the ASCII character if it is one, and the rest.
unfoldable pub unicode : Text → Scanned (ℕ × ℕ × Text)
unfolding code_point
unicode rest = do
  (cp, later) ← code_point rest
  hold (is_char cp)
  ok (len_utf8 cp, (if ltb cp 0x80 then cp else 0), later)

-- The same of what follows a backslash.
unfoldable pub escape : Text → Scanned (ℕ × ℕ × Text)
unfolding is_short unicode ℕ_discrete
escape [] = err malformed
escape (b ∷ rest) =
    if is_short b then ok (1, 0, rest) else if b == b'u' then unicode rest else err malformed

abbrev pub is_opaque : ℕ → Bool
is_opaque ascii = is_digit ascii || leb b'a' ascii && leb ascii b'f'

-- One character of a string, and the checks on it: the length decoded so far, and the rest.
unfoldable pub character : ℕ → Bool → ℕ → ℕ → Text → Scanned (ℕ × Text)
unfolding escape ℕ_discrete
character max opaque decoded b rest = do
  (len, ascii, later) ← if b == b'\\' then escape rest else ok (1, b, rest)
  within (decoded + len) max
  hold (not opaque || is_opaque ascii)
  ok (decoded + len, later)

-- The loop of `string`, a round for each byte: with no byte left it fails as the source, and with no
-- round left in a way of its own.
unfoldable pub characters : ℕ → ℕ → Bool → ℕ → Text → Scanned (ℕ × Text)
unfolding character ℕ_discrete
characters steps max opaque decoded [] = err malformed
characters zero max opaque decoded (b ∷ rest) = err out_of_rounds
characters (suc steps) max opaque decoded (b ∷ rest) =
    let more = character max opaque decoded b rest >>= λ (total, later).
    characters steps max opaque total later in
    if b == b'"' then ok (decoded, rest) else if leb b 31 then err malformed else more

-- The first bytes of a text.
unfoldable pub first : ℕ → Text → Text
first zero t = []
first (suc n) [] = []
first (suc n) (b ∷ t) = b ∷ first n t

-- `&bytes[start..at]`, of the texts left at the two places.
abbrev pub between : Text → Text → Text
between start rest = first (length start - length rest) start

-- The slice of a string with its quotes, and the rest.
unfoldable pub string : ℕ → Bool → Text → Scanned (Text × Text)
unfolding expect characters first ℕ_discrete
string max opaque start = do
  rest ← expect b'"' start
  (decoded, later) ← characters (length rest) max opaque 0 rest
  hold (not opaque || decoded == 32)
  ok (between start later, later)
