-- ===== src/Sessions/Registry/Tests.antt =====
-- A session with two profiles.
use gaze_lens.Prelude.{
  ℕ, ◌≡◌, refl, codes, List, [], ◌∷◌, Option, none, some, ok, false, Text-discrete, ℕ_discrete,
}
use gaze_lens.Sessions.Values.{
  Checked, string, object, no_fields, field, Document, structured, text, unsupported, Library,
}
use gaze_lens.Sessions.Rows.{OutputCaps, SourceOutput, CleanOutput}
use gaze_lens.Sessions.Registry.{log, ToolCall, ResultSummary, Session, put, invoke_core_tool}
use gaze_lens.Sessions.Registry.Registrations.{Registration, pipeline, source, after}
use gaze_lens.Sessions.Registry.Isolation.{IsOwn, call_stays}

-- A pipeline that puts its number before a text.
abbrev answer : ℕ → Document → Option Document
answer p (structured fields) = some (structured fields)
answer p (text t) = some (text (p ∷ t))
answer p unsupported = none

abbrev library : ℕ → Library
library p = record {
  redact = answer p;
  tokenize = λ class t. none;
  fake = λ class t. none;
  trim = λ t. t;
  cell_size = λ v. 4;
  row_size = λ row. 4;
  to_value = λ v. none;
}

-- A source that answers its number.
abbrev dispatch : ℕ → ToolCall → Checked SourceOutput
dispatch src call = ok (SourceOutput.plain (src ∷ []))

abbrev summary : CleanOutput → ResultSummary
summary clean = record { rows = 0; bytes = 2; truncated_at = [] }

abbrev caps : OutputCaps
caps = record { rows = 5; bytes = 10; cell_bytes = 4 }

abbrev registered : List (Registration ℕ ℕ)
registered =
    source log (codes "b") 2
    ∷ source log (codes "a") 1
    ∷ pipeline (codes "b") 20
    ∷ pipeline (codes "a") 10
    ∷ []

abbrev call_a : ToolCall
call_a = record {
  call_id = codes "c1";
  tool_name = codes "log_tail";
  args = object (field (codes "profile") (string (codes "a")) no_fields);
}

abbrev clean_a : CleanOutput
clean_a = CleanOutput.plain (10 ∷ 1 ∷ []) []

abbrev left : Session ℕ ℕ
left = record (after ℕ ℕ caps registered) {
  core_summaries = put (codes "c1") (summary clean_a) (after ℕ ℕ caps registered).core_summaries;
}

answered_a :
    invoke_core_tool ℕ ℕ dispatch library summary false false (after ℕ ℕ caps registered) call_a
    ≡ ok (clean_a, left)
unfolding invoke_core_tool after Text-discrete ℕ_discrete
answered_a = refl

call_stays_example : IsOwn ℕ ℕ dispatch library summary caps registered call_a clean_a
call_stays_example =
    call_stays ℕ ℕ dispatch library summary false false caps registered call_a clean_a left
      answered_a
