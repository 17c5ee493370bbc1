-- ===== src/Protocol/Args.antt =====
-- The arguments of a Call by operation, `Args` of crates/gaze-lens-protocol/src/wire.rs.
pub mod Bounded
mod Tests
use gaze_lens.Prelude.{
  ℕ, Bool, true, false, not, ◌&&◌, ◌==◌, ℕ_eq, ℕ_discrete, ltb, if◌then◌else◌, Text, Option, none,
  some, length, ok, ◌>>◌,
}
use gaze_lens.Protocol.Errors.{Checked}
use gaze_lens.Protocol.Bounds.{
  require, cap, identifier, configured_id, text, keyword_window_lines, regex_bytes,
  inventory_records, max_packages, max_php,
}
use gaze_lens.Protocol.Wire.{Operation, DestinationBinding}
use gaze_lens.Protocol.Query.{Query, if_some}

pub data View : Type 0 where
  host packages php : View

pub record Regex : Type 0 where
  pub pattern : Text
  pub level : Option Text
  pub limit : ℕ

pub record Inspect : Type 0 where
  pub view : View
  pub collector : Text
  pub limit : ℕ
  pub offset : Option ℕ

pub data Args : Type 0 where
  query : Query → Args
  schema : (table : Text) → Args
  list_tables : Args
  log_tail : (lines : ℕ) → Args
  log_window : Args
  log_regex : Regex → Args
  inspect : Inspect → Args
  readiness : Args

unfoldable pub operation : Args → Operation
operation (query q) = Operation.query
operation (schema t) = Operation.schema
operation list_tables = Operation.list_tables
operation (log_tail n) = Operation.log_tail
operation log_window = Operation.log_window
operation (log_regex r) = Operation.log_regex
operation (inspect i) = Operation.inspect
operation readiness = Operation.readiness

abbrev pub is_none : {A : Type 0} → Option A → Bool
is_none none = true
is_none (some a) = false

abbrev pub offset_of : Inspect → ℕ
offset_of i = elim i.offset [ none ↦ 0 | some n ↦ n ]

unfoldable pub check_view : View → Inspect → Checked (Unit {0})
unfolding ℕ_discrete
check_view host i = require (i.limit == 1 && is_none i.offset)
check_view php i = do require (is_none i.offset); cap i.limit max_php
check_view packages i = do cap i.limit max_packages; cap (offset_of i) inventory_records

unfoldable pub check_regex : Regex → Checked (Unit {0})
check_regex r = do
  require (ltb 0 r.limit)
  cap r.limit 1000
  cap (length r.pattern) regex_bytes
  if_some text r.level

unfoldable pub check_inspect : Inspect → Checked (Unit {0})
unfolding configured_id check_view
check_inspect i = do configured_id i.collector; require (ltb 0 i.limit); check_view i.view i

unfoldable pub validate : Args → Checked (Unit {0})
unfolding gaze_lens.Protocol.Query.validate check_regex check_inspect
validate (query q) = gaze_lens.Protocol.Query.validate q
validate (schema table) = identifier table
validate (log_tail lines) = do require (ltb 0 lines); cap lines keyword_window_lines
validate (log_regex r) = check_regex r
validate (inspect i) = check_inspect i
validate _ = ok tt

pub record Call : Type 0 where
  pub id : Text
  pub binding : DestinationBinding
  pub args : Args
