-- ===== src/Sessions/Rows/Clean.antt =====
-- What stands in the cells that redact_rows answers, src/session/mod.rs.
use gaze_lens.Prelude.{
  ℕ, ◌+◌, ◌≡◌, ◌≢◌, ◌⊎◌, inl, inr, refl, true, false, ltb, ◌==◌, Text-eq, Text-discrete,
  if◌then◌else◌, Text, List, [], ◌∷◌, length, Option, none, some, All, All-mono, ok, Bool-cases,
  arith, is_yes-holds, Gives, gives, fails, Gives-of, Gives-ok, Gives-if, Gives-bind, Gives-mono,
}
use gaze_lens.Logs.Output.{TruncatedAt}
use gaze_lens.Policy.{Action, PiiClass}
use gaze_lens.Sessions.Values.{
  Value, null, bool, number, string, array, object, LensValue, i64, u64, f64, decimal, bytes,
  date_time, uuid, json, GazeValue, Document, structured, text, unsupported, Library, is_text,
  gaze_value_to_json, lower_for_redaction, from_text, from_structured, redact_text, redact_with,
  lens_value_to_json,
}
use gaze_lens.Sessions.Values.Strings.{Strings, Strings-each_string}
use gaze_lens.Sessions.Rows.{
  OutputCaps, marker, get, take, with_field, apply_policy, to_cell, insert_capped_cell,
  redact_field, redact_fields, cells, redact_row, rows_loop, redact_rows,
}

-- Among the answers of the pipeline to a text on its own.
abbrev pub Answered : Library → Text → Type 0
Answered lib t = (raw : Text) × (lib.redact (text raw) ≡ some (text t))

-- A value with no text that the pipeline has not answered, the text of its own type aside.
abbrev pub IsClean : Library → LensValue → Type 0
IsClean lib (string t) = ⊥
IsClean lib (json v) = Strings (Answered lib) v
IsClean lib _ = Unit

-- The marker; what the pipeline answered under a key to the strings and integers of a row; or a
-- value of another type, a JSON value among them whose strings the pipeline answered one by one.
pub data CleanCell (lib : Library) (cell : Value) : Type 0 where
  marked : cell ≡ marker → CleanCell lib cell
  answered :
      (raw fields : List (Text × GazeValue)) (key : Text) (v : GazeValue)
      → lib.redact (structured raw) ≡ some (structured fields)
      → get key fields ≡ some v
      → gaze_value_to_json v ≡ ok cell
      → CleanCell lib cell
  typed : (v : LensValue) → IsClean lib v → lens_value_to_json lib v ≡ ok cell → CleanCell lib cell

-- The pipeline answers a value under each key that it is given.
abbrev pub KeepsKeys : Library → Type 0
KeepsKeys lib =
    (raw fields : List (Text × GazeValue))
    → lib.redact (structured raw) ≡ some (structured fields)
    → (key : Text) → get key raw ≢ none
    → get key fields ≢ none

text_is : (o : Option Document) → Gives (λ u. o ≡ some (text u)) (from_text o)
text_is none = fails
text_is (some (structured fields)) = fails
text_is (some (text u)) = gives refl
text_is (some unsupported) = fails

structured_is :
    (o : Option Document) → Gives (λ fields. o ≡ some (structured fields)) (from_structured o)
structured_is none = fails
structured_is (some (structured fields)) = gives refl
structured_is (some (text u)) = fails
structured_is (some unsupported) = fails

module _ (lib : Library) where
  redact_text_answered : (t : Text) → Gives (Answered lib) (redact_text lib t)
  redact_text_answered t =
      Gives-mono (redact_text lib t) (λ u is. (t, is)) (text_is (lib.redact (text t)))

  -- After redact_field a value goes to the redaction of the row, or is clean.
  abbrev Sent : LensValue → Option GazeValue → Type 0
  Sent v (some g) = Unit
  Sent v none = IsClean lib v

  Sent-clean : (v : LensValue) (o : Option GazeValue) → IsClean lib v → Sent v o
  Sent-clean v none h = h
  Sent-clean v (some g) h = tt

  text-Sent : (v : LensValue) → is_text v ≡ true → Gives (Sent v) (lower_for_redaction lib v)
  unfolding lower_for_redaction
  text-Sent (string t) h = gives tt
  text-Sent (json (string t)) h = gives tt
  text-Sent (json null) h = cc
  text-Sent (json (bool b)) h = cc
  text-Sent (json (number n)) h = cc
  text-Sent (json (array es)) h = cc
  text-Sent (json (object fs)) h = cc
  text-Sent null h = cc
  text-Sent (bool b) h = cc
  text-Sent (i64 n) h = cc
  text-Sent (u64 n) h = cc
  text-Sent (f64 t) h = cc
  text-Sent (decimal t p s) h = cc
  text-Sent (bytes t n) h = cc
  text-Sent (date_time t) h = cc
  text-Sent (uuid t) h = cc

  IsClean-redact_with :
      (v : LensValue) → is_text v ≡ false → Gives (IsClean lib) (redact_with lib v)
  unfolding redact_with lower_for_redaction
  IsClean-redact_with (string t) h = cc
  IsClean-redact_with (json v) h =
      Gives-bind (Strings-each_string (Answered lib) (redact_text lib) redact_text_answered v)
        λ w p. gives p
  IsClean-redact_with null h = gives tt
  IsClean-redact_with (bool b) h = gives tt
  IsClean-redact_with (i64 n) h = gives tt
  IsClean-redact_with (u64 n) h = gives tt
  IsClean-redact_with (f64 t) h = gives tt
  IsClean-redact_with (decimal t p s) h =
      Gives-bind {P = λ _. Unit {0}}
        (Gives-of (lower_for_redaction lib (decimal t p s)) (λ a e. tt)) λ o u. gives tt
  IsClean-redact_with (bytes t n) h = gives tt
  IsClean-redact_with (date_time t) h = gives tt
  IsClean-redact_with (uuid t) h = gives tt

  module _ (caps : OutputCaps) (actions : Text → Option (Action × PiiClass)) where
    field-Sent :
        (key : Text) (value : LensValue)
        → Gives (λ (kept, lowered). Sent kept lowered) (redact_field lib caps actions key value)
    unfolding redact_field
    field-Sent key value =
        Gives-bind {P = λ _. Unit {0}}
          (Gives-of (apply_policy lib caps actions (actions key) value) (λ a e. tt))
          λ acted u. elim (Bool-cases (is_text acted)) [
            | inl is ↦ rw is (Gives-bind (text-Sent acted is) λ lowered s. gives s)
            | inr not_text ↦ rw not_text (
                Gives-bind (IsClean-redact_with acted not_text) λ kept clean.
                  Gives-bind {P = λ _. Unit {0}}
                    (Gives-of (lower_for_redaction lib kept) (λ a e. tt))
                    λ lowered v. gives (Sent-clean kept lowered clean))
          ]

    -- What of a row goes to its redaction, or is clean.
    abbrev Covered : List (Text × GazeValue) → Text × LensValue → Type 0
    Covered raw (key, v) = (get key raw ≢ none) ⊎ IsClean lib v

    Covered-more :
        (k : Text) (o : Option GazeValue) (raw : List (Text × GazeValue)) (c : Text × LensValue)
        → Covered raw c
        → Covered (with_field k o raw) c
    unfolding get
    Covered-more k none raw c h = h
    Covered-more k (some v) raw (key, w) (inr clean) = inr clean
    Covered-more k (some v) raw (key, w) (inl sent) = elim (Bool-cases (k == key)) [
      | inl same ↦ rw same (inl λ e. ground arith)
      | inr differs ↦ rw differs (inl sent)
    ]

    Covered-head :
        (key : Text) (v : LensValue) (o : Option GazeValue) (raw : List (Text × GazeValue))
        → Sent v o
        → Covered (with_field key o raw) (key, v)
    unfolding get
    Covered-head key v none raw h = inr h
    Covered-head key v (some g) raw h = elim (Bool-cases (key == key)) [
      | inl same ↦ rw same (inl λ e. ground arith)
      | inr differs ↦ absurd (is_yes-holds (Text-discrete key key) refl differs)
    ]

    row-Covered :
        (row : List (Text × LensValue))
        → Gives (λ (kept, raw). All (Covered raw) kept) (redact_fields lib caps actions row)
    unfolding redact_fields
    row-Covered [] = gives tt
    row-Covered ((key, value) ∷ rest) = Gives-bind (field-Sent key value) λ (kept, lowered) sent.
        Gives-bind (row-Covered rest) λ (row, raw) covered. gives (
          Covered-head key kept lowered raw sent,
          All-mono (Covered-more key lowered raw) row covered,
        )

    abbrev AllClean : List (Text × Value) → Type 0
    AllClean out = All (λ (key, cell). CleanCell lib cell) out

    capped_clean :
        (cell : Value) (ts : List TruncatedAt)
        → CleanCell lib cell
        → CleanCell lib (insert_capped_cell lib caps actions cell ts).0
    unfolding insert_capped_cell
    capped_clean cell ts h = elim (Bool-cases (ltb caps.cell_bytes (lib.cell_size cell))) [
      | inl large ↦ rw large (marked refl)
      | inr small ↦ rw small h
    ]

    module _ (keeps : KeepsKeys lib) (raw fields : List (Text × GazeValue))
        (is : lib.redact (structured raw) ≡ some (structured fields)) where
      cell_clean :
          (key : Text) (value : LensValue)
          → Covered raw (key, value)
          → (o : Option GazeValue) → get key fields ≡ o
          → Gives (CleanCell lib) (to_cell lib caps actions o value)
      cell_clean key value covered (some v) found =
          Gives-of (gaze_value_to_json v) λ cell made. answered raw fields key v is found made
      cell_clean key value (inr clean) none found =
          Gives-of (lens_value_to_json lib value) λ cell made. typed value clean made
      cell_clean key value (inl sent) none found = absurd (keeps raw fields is key sent found)

      cells_clean :
          (row : List (Text × LensValue)) (ts : List TruncatedAt)
          → All (Covered raw) row
          → Gives (λ (out, us). AllClean out) (cells lib caps actions fields row ts)
      unfolding cells
      cells_clean [] ts h = gives tt
      cells_clean ((key, value) ∷ rest) ts (h, hs) =
          Gives-bind (cell_clean key value h (get key fields) refl) λ cell clean.
            Gives-bind (cells_clean rest (insert_capped_cell lib caps actions cell ts).1 hs)
              λ (out, us) all_clean. gives (capped_clean cell ts clean, all_clean)

    module _ (keeps : KeepsKeys lib) where
      row_clean :
          (row : List (Text × LensValue)) (ts : List TruncatedAt)
          → Gives (λ (out, us). AllClean out) (redact_row lib caps actions row ts)
      unfolding redact_row
      row_clean row ts = Gives-bind (row-Covered row) λ (kept, raw) covered.
          Gives-bind (structured_is (lib.redact (structured raw)))
            λ fields is. cells_clean keeps raw fields is kept ts covered

      loop_clean :
          (all : List (List (Text × LensValue))) (spent : ℕ) (ts : List TruncatedAt)
          → Gives (λ (outs, us). All AllClean outs) (rows_loop lib caps actions all spent ts)
      unfolding rows_loop
      loop_clean [] spent ts = gives tt
      loop_clean (row ∷ rest) spent ts = Gives-bind (row_clean row ts) λ (out, us) clean.
          Gives-if (ltb caps.bytes (spent + lib.row_size out)) (λ full. gives tt)
            (λ room.
              Gives-bind (loop_clean rest (spent + lib.row_size out) us)
                λ (outs, vs) all_clean. gives (clean, all_clean))

      -- If the pipeline answers a value under each key that it is given, then each cell that
      -- redact_rows answers is the marker of a cell that was cut, or what the pipeline answered for
      -- a key of a row, or a value whose type is neither text nor JSON, or a JSON value whose
      -- strings, at any depth, the pipeline answered one by one.
      pub rows_clean :
          (all : List (List (Text × LensValue))) (outs : List (List (Text × Value)))
          (ts : List TruncatedAt)
          → redact_rows lib caps actions all ≡ ok (outs, ts)
          → All (λ out. All (λ (key, cell). CleanCell lib cell) out) outs
      unfolding redact_rows
      rows_clean all outs ts h =
          Gives-ok (outs, ts)
            (loop_clean (take caps.rows all) 0
              (if ltb caps.rows (length all) then TruncatedAt.rows ∷ [] else []))
            h
