-- ===== src/Protocol/Results/Checks.antt =====
-- The checks of the parts of a result, crates/gaze-lens-protocol/src/wire.rs.
use gaze_lens.Prelude.{
  ℕ, ◌+◌, Bool, true, false, not, ◌&&◌, ◌||◌, ◌==◌, ℕ_eq, ℕ_discrete, Text-eq, Text-discrete,
  text_ltb, ltb, leb, if◌then◌else◌, Text, List, [], ◌∷◌, Option, none, some, length, any, all,
  is_empty, ok, ◌>>=◌, ◌>>◌,
}
use gaze_lens.Protocol.Errors.{Checked}
use gaze_lens.Protocol.Bounds.{
  require, cap, identifier, text, scan_bytes, scan_lines, inventory_records, max_packages,
}
use gaze_lens.Protocol.Args.{packages, Inspect, is_none, offset_of}
use gaze_lens.Protocol.Results.Types.{
  Reason, Reason-eq, Reason-discrete, bytes, lines, boundary, records, rank, Window, PackagePage,
  Column, View-eq, View-discrete,
}

abbrev pub contains : List Reason → Reason → Bool
unfolding Reason-discrete
contains xs r = any (λ x. r == x) xs

-- `xs.windows(2).all(|w| w[0] < w[1])`
unfoldable pub is_rising : List Reason → Bool
unfolding rank
is_rising [] = true
is_rising (x ∷ []) = true
is_rising (x ∷ y ∷ rest) = ltb (rank x) (rank y) && is_rising (y ∷ rest)

unfoldable pub reasons : List Reason → List Reason → Checked (Unit {0})
unfolding is_rising Reason-discrete
reasons xs allowed = require (is_rising xs && all (λ r. contains allowed r) xs)

unfoldable pub is_sorted : List Text → Bool
unfolding text_ltb
is_sorted [] = true
is_sorted (x ∷ []) = true
is_sorted (x ∷ y ∷ rest) = text_ltb x y && is_sorted (y ∷ rest)

-- The loop over the labels, with those that were seen.
unfoldable pub distinct_labels : List Text → List Text → Checked (Unit {0})
unfolding Text-discrete
distinct_labels seen [] = ok tt
distinct_labels seen (x ∷ rest) = do
  identifier x
  require (not (any (λ y. x == y) seen))
  distinct_labels (x ∷ seen) rest

unfoldable pub labels : List Text → ℕ → Bool → Checked (Unit {0})
unfolding distinct_labels is_sorted
labels xs max sorted = do
  cap (length xs) max
  distinct_labels [] xs
  require (not sorted || is_sorted xs)

-- `bytes.checked_add(line.len() + 1)`: a line is at most a scalar's bytes, and lines fit memory.
unfoldable pub line_sizes : List Text → ℕ → Checked ℕ
unfolding ℕ_discrete
line_sizes [] size = ok size
line_sizes (line ∷ rest) size = do
  text line
  require (not (any (λ b. b == 10) line))
  line_sizes rest (size + (length line + 1))

unfoldable pub check_log_window : Window → List Text → List Reason → Checked (Unit {0})
unfolding line_sizes reasons
check_log_window w shown truncated = do
  cap w.scanned_bytes scan_bytes
  cap w.scanned_lines scan_lines
  require (leb w.admitted_lines w.scanned_lines && leb w.scanned_lines w.scanned_bytes)
  size ← line_sizes shown 0
  require (leb size w.scanned_bytes)
  reasons truncated (bytes ∷ lines ∷ Reason.scan_bytes ∷ Reason.scan_lines ∷ boundary ∷ [])

-- The loop over the columns, with the name of the one before.
unfoldable pub sorted_columns : Option Text → List Column → Checked (Unit {0})
unfolding text_ltb
sorted_columns last [] = ok tt
sorted_columns last (c ∷ rest) = do
  identifier c.name
  text c.data_type
  require (elim last [ none ↦ true | some s ↦ text_ltb s c.name ])
  sorted_columns (some c.name) rest

-- The page's arm below its total, and the one at or past it.
unfoldable pub check_last_page : PackagePage → ℕ → List Reason → Checked (Unit {0})
unfolding ℕ_discrete
check_last_page p returned truncated =
    require (returned == 0 && is_none p.next_offset && is_empty truncated)

abbrev pub is_next : Option ℕ → Option ℕ → Bool
is_next none none = true
is_next (some a) (some b) = a == b
is_next _ _ = false

unfoldable pub check_some_page : PackagePage → ℕ → ℕ → List Reason → Checked (Unit {0})
unfolding ℕ_discrete Reason-discrete
check_some_page p returned end truncated = do
  require (ltb 0 returned && leb end p.total)
  require (is_next p.next_offset (if ltb end p.total then some end else none))
  if ltb end p.total then require (not (is_empty truncated)) else require (is_empty truncated)
  require (not (contains truncated records) || ltb end p.total)

-- PackagePage::validate; its checked addition is of numbers below the ceilings just checked.
unfoldable pub check_page : PackagePage → Inspect → ℕ → List Reason → Checked (Unit {0})
unfolding View-discrete ℕ_discrete reasons check_last_page check_some_page
check_page p request returned truncated = do
  require (request.view == packages && p.offset == offset_of request && p.returned == returned)
  cap p.offset inventory_records
  cap p.total inventory_records
  require (ltb 0 request.limit)
  cap request.limit max_packages
  reasons truncated (bytes ∷ records ∷ [])
  cap returned request.limit
  if leb p.total p.offset
      then check_last_page p returned truncated
      else check_some_page p returned (p.offset + returned) truncated
