-- ===== src/Sessions/Rows.antt =====
-- Session::redact_result of src/session/mod.rs and what it calls: the rows and texts that a
-- source answers, redacted and cut at the caps.
pub mod Caps
pub mod Clean
mod Tests
use gaze_lens.Prelude.{
  ℕ, zero, suc, ◌+◌, Bool, true, false, not, ◌&&◌, ◌||◌, ◌==◌, ℕ_eq, ℕ_discrete, Text-eq,
  Text-discrete, ltb, leb, if◌then◌else◌, Text, codes, List, [], ◌∷◌, ◌++◌, length, Option, none,
  some, Result, ok, err, ◌>>=◌,
}
use gaze_lens.Logs.Output.{TruncatedAt, push_truncation}
use gaze_lens.Policy.{Action, PiiClass}
use gaze_lens.Sessions.Values.{
  LensError, Checked, from_text, from_structured, Value, string, LensValue, json, GazeValue,
  Document, structured, text, Library, is_text, gaze_value_to_json, lower_for_redaction,
  redact_with, apply_column_action, lens_value_to_json,
}

pub record OutputCaps : Type 0 where
  pub rows : ℕ
  pub bytes : ℕ
  pub cell_bytes : ℕ

pub data SourceOutput : Type 0 where
  rows : List (List (Text × LensValue)) → SourceOutput
  plain : Text → SourceOutput
  schema_text : Text → SourceOutput
  with_truncation : (text : Text) (truncated_at : List TruncatedAt) → SourceOutput

pub data CleanOutput : Type 0 where
  rows : (rows : List (List (Text × Value))) (truncated_at : List TruncatedAt) → CleanOutput
  plain : (text : Text) (truncated_at : List TruncatedAt) → CleanOutput

-- A byte that does not begin a character stands inside one.
abbrev pub is_inside : ℕ → Bool
is_inside b = leb 0x80 b && ltb b 0xc0

-- `is_char_boundary`
unfoldable pub is_boundary : ℕ → Text → Bool
is_boundary zero t = true
is_boundary (suc n) [] = true
is_boundary (suc zero) (b ∷ []) = true
is_boundary (suc zero) (b ∷ c ∷ t) = not (is_inside c)
is_boundary (suc (suc n)) (b ∷ t) = is_boundary (suc n) t

-- The loop of cap_string.
unfoldable pub cap_end : ℕ → Text → ℕ
unfolding is_boundary
cap_end zero t = zero
cap_end (suc n) t = let before = cap_end n t in if is_boundary (suc n) t then suc n else before

unfoldable pub take {ℓ} : {A : Type ℓ} → ℕ → List A → List A
take zero xs = []
take (suc n) [] = []
take (suc n) (x ∷ xs) = x ∷ take n xs

unfoldable pub cap_string : Text → ℕ → Text × Bool
unfolding cap_end take
cap_string t max = if leb (length t) max then (t, false) else (take (cap_end max t) t, true)

-- BTreeMap::get
unfoldable pub get : Text → List (Text × GazeValue) → Option GazeValue
unfolding Text-discrete
get key [] = none
get key ((k, v) ∷ rest) = let later = get key rest in if k == key then some v else later

abbrev pub marker : Value
marker = string (codes "<TRUNCATED:cell_bytes>")

abbrev pub with_field : Text → Option GazeValue → List (Text × GazeValue) → List (Text × GazeValue)
with_field key none raw = raw
with_field key (some v) raw = (key, v) ∷ raw

module _ (lib : Library) (caps : OutputCaps) (actions : Text → Option (Action × PiiClass)) where
  abbrev pub apply_policy : Option (Action × PiiClass) → LensValue → Checked LensValue
  apply_policy none value = ok value
  apply_policy (some action) value = apply_column_action lib action value

  -- One value of a row, and what of it goes to the redaction of the whole row.
  unfoldable pub redact_field : Text → LensValue → Checked (LensValue × Option GazeValue)
  unfolding apply_column_action redact_with lower_for_redaction
  redact_field key value = do
    acted ← apply_policy (actions key) value
    kept ← if is_text acted then ok acted else redact_with lib acted
    lowered ← lower_for_redaction lib kept
    ok (kept, lowered)

  unfoldable pub redact_fields :
      List (Text × LensValue) → Checked (List (Text × LensValue) × List (Text × GazeValue))
  unfolding redact_field
  redact_fields [] = ok ([], [])
  redact_fields ((key, value) ∷ rest) = do
    (kept, lowered) ← redact_field key value
    (row, raw) ← redact_fields rest
    ok ((key, kept) ∷ row, with_field key lowered raw)

  abbrev pub redact_document : List (Text × GazeValue) → Checked (List (Text × GazeValue))
  redact_document raw = from_structured (lib.redact (structured raw))

  abbrev pub to_cell : Option GazeValue → LensValue → Checked Value
  to_cell (some redacted) value = gaze_value_to_json redacted
  to_cell none value = lens_value_to_json lib value

  unfoldable pub insert_capped_cell : Value → List TruncatedAt → Value × List TruncatedAt
  unfolding push_truncation
  insert_capped_cell cell truncated =
      if ltb caps.cell_bytes (lib.cell_size cell)
      then (marker, push_truncation TruncatedAt.cell_bytes truncated)
      else (cell, truncated)

  unfoldable pub cells :
      List (Text × GazeValue)
      → List (Text × LensValue)
      → List TruncatedAt
      → Checked (List (Text × Value) × List TruncatedAt)
  unfolding get gaze_value_to_json lens_value_to_json insert_capped_cell
  cells fields [] truncated = ok ([], truncated)
  cells fields ((key, value) ∷ rest) truncated = do
    cell ← to_cell (get key fields) value
    let capped = insert_capped_cell cell truncated
    (out, truncated₁) ← cells fields rest capped.1
    ok ((key, capped.0) ∷ out, truncated₁)

  unfoldable pub redact_row :
      List (Text × LensValue) → List TruncatedAt → Checked (List (Text × Value) × List TruncatedAt)
  unfolding redact_fields cells
  redact_row row truncated = do
    (kept, raw) ← redact_fields row
    fields ← redact_document raw
    cells fields kept truncated

  -- The loop over the rows, with the bytes so far; `saturating_add` stays below 2^64.
  unfoldable pub rows_loop :
      List (List (Text × LensValue))
      → ℕ
      → List TruncatedAt
      → Checked (List (List (Text × Value)) × List TruncatedAt)
  unfolding redact_row push_truncation
  rows_loop [] total truncated = ok ([], truncated)
  rows_loop (row ∷ rest) total truncated = redact_row row truncated >>= λ (out, truncated₁).
      let later = rows_loop rest (total + lib.row_size out) truncated₁ in
      if ltb caps.bytes (total + lib.row_size out)
      then ok ([], push_truncation TruncatedAt.bytes truncated₁)
      else (later >>= λ (outs, truncated₂). ok (out ∷ outs, truncated₂))

  unfoldable pub redact_rows :
      List (List (Text × LensValue)) → Checked (List (List (Text × Value)) × List TruncatedAt)
  unfolding rows_loop take
  redact_rows all =
      rows_loop (take caps.rows all) 0
        (if ltb caps.rows (length all) then TruncatedAt.rows ∷ [] else [])

  unfoldable pub redact_text_output : Text → List TruncatedAt → Checked CleanOutput
  unfolding cap_string push_truncation
  redact_text_output t truncated =
      let capped = cap_string t caps.bytes in
      let flagged = if capped.1 then push_truncation TruncatedAt.bytes truncated else truncated in
      from_text (lib.redact (text capped.0)) >>= λ u. ok (CleanOutput.plain u flagged)

  unfoldable pub schema_text_output : Text → List TruncatedAt → Checked CleanOutput
  unfolding cap_string push_truncation
  schema_text_output t truncated =
      let capped = cap_string t caps.bytes in
      ok (
        CleanOutput.plain capped.0
          (if capped.1 then push_truncation TruncatedAt.bytes truncated else truncated))

  unfoldable pub redact_result : SourceOutput → Checked CleanOutput
  unfolding redact_rows redact_text_output schema_text_output
  redact_result (SourceOutput.rows all) =
      redact_rows all >>= λ (outs, truncated). ok (CleanOutput.rows outs truncated)
  redact_result (SourceOutput.plain t) = redact_text_output t []
  redact_result (schema_text t) = schema_text_output t []
  redact_result (with_truncation t truncated) = redact_text_output t truncated
