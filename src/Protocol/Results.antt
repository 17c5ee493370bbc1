-- ===== src/Protocol/Results.antt =====
-- The results of a Call and their checks against its arguments, `ResultBody::validate_for` of
-- crates/gaze-lens-protocol/src/wire.rs. A row's value and its check, and the size that serde_json
-- gives a result, are given.
pub mod Types
pub mod Checks
pub mod Inspection
pub mod Paging
pub mod Logs
mod Tests
use gaze_lens.Prelude.{
  ℕ, Bool, true, false, not, ◌&&◌, ◌||◌, ◌==◌, ℕ_eq, ℕ_discrete, Text-eq, Text-discrete, leb,
  if◌then◌else◌, Text, List, [], ◌∷◌, Option, none, some, length, is_empty, ok, err, ◌>>=◌, ◌>>◌,
  each,
}
use gaze_lens.Protocol.Errors.{Checked, invalid_request}
use gaze_lens.Protocol.Bounds.{
  require, cap, identifier, configured_id, result_bytes, max_columns, max_entries,
  keyword_window_lines,
}
use gaze_lens.Protocol.Query.{limit_of}
use gaze_lens.Protocol.Args.{Args, View, host, packages, php, Inspect}
use gaze_lens.Protocol.Results.Types.{
  Reason, Reason-discrete, bytes, rows, lines, records, Window, PackagePage, Column, Status,
  Status-eq, Status-discrete, ok_status, Evidence, Records, host_records, package_records,
  php_records, records_length, View-eq, View-discrete,
}
use gaze_lens.Protocol.Results.Checks.{reasons, labels, sorted_columns, check_log_window, contains}
use gaze_lens.Protocol.Results.Inspection.{check_without_records, check_records}

pub data ResultBody (V : Type 0) : Type 0 where
  query_rows :
      (columns : List Text) (found : List (List V)) (truncated : List Reason) → ResultBody V
  table_schema : (table : Text) (columns : List Column) (truncated : List Reason) → ResultBody V
  table_list : (tables : List Text) (truncated : List Reason) → ResultBody V
  log_window : (shown : List Text) (window : Window) (truncated : List Reason) → ResultBody V
  log_matches :
      (shown : List Text) (window : Window) (matched_lines : ℕ) (truncated : List Reason)
      → ResultBody V
  inspection :
      (view : View) (collector : Text) (status : Status) (evidence : Evidence) (found : Records)
      (page : Option PackagePage) (truncated : List Reason)
      → ResultBody V
  readiness : ResultBody V

abbrev pub is_of_view : View → Records → Bool
is_of_view host (host_records xs) = true
is_of_view packages (package_records xs) = true
is_of_view php (php_records xs) = true
is_of_view _ _ = false

unfoldable pub check_window_result : ℕ → List Text → Window → List Reason → Checked (Unit {0})
unfolding ℕ_discrete check_log_window
check_window_result limit shown window truncated = do
  cap (length shown) limit
  require (window.admitted_lines == length shown)
  check_log_window window shown truncated

unfoldable pub check_matches_result : ℕ → List Text → Window → ℕ → List Reason → Checked (Unit {0})
unfolding check_log_window Reason-discrete
check_matches_result limit shown window matched_lines truncated = do
  cap (length shown) limit
  require (leb (length shown) matched_lines && leb matched_lines window.admitted_lines)
  check_log_window window shown truncated
  require (not (contains truncated lines) || not (leb matched_lines (length shown)))

unfoldable pub check_inspection :
    Inspect
    → View
    → Text
    → Status
    → Evidence
    → Records
    → Option PackagePage
    → List Reason
    → Checked (Unit {0})
unfolding View-discrete Text-discrete configured_id Status-discrete check_without_records
    records_length check_records
check_inspection i view collector status evidence found page truncated = do
  require (view == i.view && collector == i.collector)
  configured_id collector
  require (is_of_view view found)
  if not (status == ok_status)
      then check_without_records view evidence found page truncated
      else do cap (records_length found) i.limit; check_records i evidence found page truncated

module _ {V : Type 0} (check_value : V → Checked (Unit {0})) where
  unfoldable pub check_rows : ℕ → List (List V) → Checked (Unit {0})
  unfolding ℕ_discrete
  check_rows width found =
      each (λ row. do require (length row == width); each check_value row) found

  -- The match on the result and the arguments.
  unfoldable pub check_body : ResultBody V → Args → Checked (Unit {0})
  unfolding labels reasons limit_of check_rows sorted_columns check_window_result
      check_matches_result check_inspection
  check_body (query_rows columns found truncated) (Args.query q) = do
    require (not (is_empty columns))
    labels columns max_columns false
    cap (length found) (limit_of q)
    check_rows (length columns) found
    reasons truncated (bytes ∷ rows ∷ [])
  check_body (table_schema table columns truncated) (Args.schema t) = do
    identifier table
    cap (length columns) max_entries
    sorted_columns none columns
    reasons truncated (bytes ∷ records ∷ [])
  check_body (table_list tables truncated) Args.list_tables = do
    labels tables max_entries true
    reasons truncated (bytes ∷ records ∷ [])
  check_body (log_window shown window truncated) (Args.log_tail n) =
      check_window_result n shown window truncated
  check_body (log_window shown window truncated) Args.log_window =
      check_window_result keyword_window_lines shown window truncated
  check_body (log_matches shown window matched_lines truncated) (Args.log_regex r) =
      check_matches_result r.limit shown window matched_lines truncated
  check_body (inspection view collector status evidence found page truncated) (Args.inspect i) =
      check_inspection i view collector status evidence found page truncated
  check_body readiness Args.readiness = ok tt
  check_body _ _ = err invalid_request

  -- ResultBody::validate_for, where the serialized result has the size.
  unfoldable pub validate_for : ℕ → ResultBody V → Args → Checked (Unit {0})
  unfolding gaze_lens.Protocol.Args.validate check_body
  validate_for size body args = do
    gaze_lens.Protocol.Args.validate args
    cap size result_bytes
    check_body body args
