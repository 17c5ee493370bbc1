-- ===== src/Sessions/Rows/Tests.antt =====
-- Rows redacted and cut, at concrete inputs.
use gaze_lens.Prelude.{
  ℕ, ◌≡◌, ◌≤◌, refl, ap, ◌∙◌, Text, codes, List, [], ◌∷◌, length, Option, none, some, ok, All,
}
use gaze_lens.Logs.Output.{TruncatedAt}
use gaze_lens.Policy.{Action, redact, PiiClass, name}
use gaze_lens.Sessions.Values.{
  Value, string, array, element, no_elements, LensValue, date_time, json, Document, structured,
  text, unsupported, Library,
}
use gaze_lens.Sessions.Rows.{OutputCaps, take, get, redact_rows, redact_field}
use gaze_lens.Sessions.Rows.Caps.{Keeps, rows_capped}
use gaze_lens.Sessions.Rows.Clean.{KeepsKeys, CleanCell, rows_clean}

-- A pipeline that answers a text by a token, and fields as they are.
abbrev answer : Document → Option Document
answer (structured fields) = some (structured fields)
answer (text t) = some (text (codes "<T>"))
answer unsupported = none

abbrev lib : Library
lib = record {
  redact = answer;
  tokenize = λ class t. some (codes "<T>");
  fake = λ class t. none;
  trim = λ t. t;
  cell_size = λ v. 4;
  row_size = λ row. length row;
  to_value = λ v. some (string (codes "typed"));
}

abbrev caps : OutputCaps
caps = record { rows = 1; bytes = 10; cell_bytes = 4 }

abbrev actions : Text → Option (Action × PiiClass)
actions key = some (redact, name)

abbrev row : List (Text × LensValue)
row =
    (codes "a", string (codes "Ann"))
    ∷ (codes "b", date_time (codes "1990-01-01"))
    ∷ (codes "c", json (array (element (string (codes "Ann")) no_elements)))
    ∷ []

abbrev clean_row : List (Text × Value)
clean_row =
    (codes "a", string (codes "[REDACTED]"))
    ∷ (codes "b", string (codes "typed"))
    ∷ (codes "c", string (codes "typed"))
    ∷ []

cut : redact_rows lib caps actions (row ∷ row ∷ []) ≡ ok (clean_row ∷ [], TruncatedAt.rows ∷ [])
unfolding redact_rows
cut = refl

-- The action of a column leaves a date as it is.
date_stays :
    redact_field lib caps actions (codes "b") (date_time (codes "1990-01-01"))
    ≡ ok (date_time (codes "1990-01-01"), none)
unfolding redact_field
date_stays = refl

answer_keeps : KeepsKeys lib
answer_keeps raw fields is key sent found =
    let same : raw ≡ fields = cc in sent (ap (get key) same ∙ found)

rows_clean_example : All (λ out. All (λ (key, cell). CleanCell lib cell) out) (clean_row ∷ [])
rows_clean_example =
    rows_clean lib caps actions answer_keeps (row ∷ row ∷ []) (clean_row ∷ [])
      (TruncatedAt.rows ∷ []) cut

rows_capped_example :
    Keeps lib caps actions (take 1 (row ∷ row ∷ [])) 0 (clean_row ∷ [])
    × (◌≤◌ (length (clean_row ∷ [])) 1)
    × (◌≡◌ {A = List TruncatedAt} (TruncatedAt.rows ∷ []) [] → ◌≡◌ {A = ℕ} 1 2)
rows_capped_example =
    rows_capped lib caps actions (row ∷ row ∷ []) (clean_row ∷ []) (TruncatedAt.rows ∷ []) cut
