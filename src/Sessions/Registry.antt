-- ===== src/Sessions/Registry.antt =====
-- The profiles and sources that a Session holds, and a call of a tool on it,
-- src/session/mod.rs. A lazy source stands for what its cell answers.
pub mod Registrations
pub mod Isolation
mod Tests
use gaze_lens.Prelude.{
  ℕ, Bool, true, false, not, ◌&&◌, ◌||◌, ◌==◌, ℕ_eq, Text-eq, Text-discrete, text_ltb,
  if◌then◌else◌, Text, codes, List, [], ◌∷◌, Option, none, some, is_empty, length, Result, ok, err,
  ok_or, ◌>>=◌, ◌>>◌,
}
use gaze_lens.Logs.Output.{TruncatedAt}
use gaze_lens.Policy.{Action, PiiClass}
use gaze_lens.Sessions.Values.{
  LensError, internal, profile, profile_mismatch, profile_unknown, source_error, operation_timeout,
  Checked, Value, string, object, Fields, no_fields, field, Library,
}
use gaze_lens.Sessions.Rows.{OutputCaps, SourceOutput, CleanOutput, redact_result}

pub data SourceClass : Type 0 where
  database log : SourceClass

abbrev pub is_class : SourceClass → SourceClass → Bool
is_class database database = true
is_class log log = true
is_class database log = false
is_class log database = false

abbrev pub other_class : SourceClass → SourceClass
other_class database = log
other_class log = database

unfoldable pub tool_kind : Text → Option SourceClass
unfolding Text-discrete
tool_kind tool =
    if tool == codes "query" || tool == codes "schema" || tool == codes "list_tables"
    then some database
    else if tool == codes "log_tail" || tool == codes "log_grep"
    then some log
    else none

pub record ToolCall : Type 0 where
  pub call_id : Text
  pub tool_name : Text
  pub args : Value

pub record ResultSummary : Type 0 where
  pub rows : ℕ
  pub bytes : ℕ
  pub truncated_at : List TruncatedAt

abbrev pub ColumnActionPolicy : Type 0
ColumnActionPolicy = Text → Option (Action × PiiClass)

abbrev pub no_actions : ColumnActionPolicy
no_actions column = none

-- `unwrap_or_default`
abbrev pub or_no_actions : Option ColumnActionPolicy → ColumnActionPolicy
or_no_actions none = no_actions
or_no_actions (some policy) = policy

-- HashMap::insert
abbrev pub put : {A : Type 0} → Text → A → (Text → Option A) → Text → Option A
put key v m k = if k == key then some v else m k

-- serde_json::Map::get and insert; its keys stand in order.
unfoldable pub get_field : Text → Fields → Option Value
unfolding Text-discrete
get_field key no_fields = none
get_field key (field k v fs) = let later = get_field key fs in if k == key then some v else later

unfoldable pub insert_field : Text → Value → Fields → Fields
unfolding Text-discrete text_ltb
insert_field key v no_fields = field key v no_fields
insert_field key v (field k w fs) =
    let later = insert_field key v fs in
    if k == key
    then field k v fs
    else if text_ltb key k
    then field key v (field k w fs)
    else field k w later

-- `as_str` of a field that may be missing.
abbrev pub as_str : Option Value → Option Text
as_str (some (string t)) = some t
as_str _ = none

module _ (Pipeline Source : Type 0) where
  pub data PipelineMode : Type 0 where
    single_profile : (name : Text) (pipeline : Pipeline) → PipelineMode
    multi_profile : (Text → Option Pipeline) → PipelineMode

  pub data ColumnActionMode : Type 0 where
    single_profile : (name : Text) (policy : ColumnActionPolicy) → ColumnActionMode
    multi_profile : (Text → Option ColumnActionPolicy) → ColumnActionMode

  pub record Session : Type 0 where
    pub pipeline_mode : PipelineMode
    pub column_action_mode : ColumnActionMode
    pub core_summaries : Text → Option ResultSummary
    pub sources : SourceClass → Text → Option Source
    pub legacy_sources : Text → Option Source
    pub production_profiles : Text → Bool
    pub caps : OutputCaps

  unfoldable pub new_for_multi_profile : OutputCaps → Session
  new_for_multi_profile caps = record {
    pipeline_mode = multi_profile (λ name. none);
    column_action_mode = multi_profile (λ name. none);
    core_summaries = λ call. none;
    sources = λ class name. none;
    legacy_sources = λ name. none;
    production_profiles = λ name. false;
    caps = caps;
  }

  unfoldable pub register_source : Text → Source → Session → Session
  unfolding Text-discrete
  register_source name source s = record s { legacy_sources = put name source s.legacy_sources }

  unfoldable pub register_source_for_profile : SourceClass → Text → Source → Session → Session
  unfolding Text-discrete
  register_source_for_profile class name source s = record s {
    sources = λ c n. if is_class c class && n == name then some source else s.sources c n;
  }

  unfoldable pub add_pipeline : Text → Pipeline → PipelineMode → Checked PipelineMode
  unfolding Text-discrete
  add_pipeline name pipeline (single_profile n p) = err internal
  add_pipeline name pipeline (multi_profile pipelines) =
      ok (multi_profile (put name pipeline pipelines))

  unfoldable pub register_pipeline : Text → Pipeline → Session → Checked Session
  unfolding add_pipeline
  register_pipeline name pipeline s = do
    mode ← add_pipeline name pipeline s.pipeline_mode
    ok (record s { pipeline_mode = mode })

  unfoldable pub add_policy :
      Text → ColumnActionPolicy → ColumnActionMode → Checked ColumnActionMode
  unfolding Text-discrete
  add_policy name policy (single_profile n p) =
      if not (n == name) then err internal else ok (single_profile n policy)
  add_policy name policy (multi_profile policies) = ok (multi_profile (put name policy policies))

  unfoldable pub register_column_action_policy :
      Text → ColumnActionPolicy → Session → Checked Session
  unfolding add_policy
  register_column_action_policy name policy s = do
    mode ← add_policy name policy s.column_action_mode
    ok (record s { column_action_mode = mode })

  unfoldable pub pipeline_for : PipelineMode → Text → Checked Pipeline
  unfolding Text-discrete
  pipeline_for (single_profile n pipeline) name =
      if n == name then ok pipeline else err profile_mismatch
  pipeline_for (multi_profile pipelines) name = ok_or profile_unknown (pipelines name)

  unfoldable pub ensure_profile_registered : PipelineMode → Text → Checked (Unit {0})
  unfolding Text-discrete
  ensure_profile_registered (single_profile n pipeline) name =
      if n == name then ok tt else err profile_mismatch
  ensure_profile_registered (multi_profile pipelines) name =
      ok_or profile_unknown (pipelines name) >>= λ p. ok tt

  unfoldable pub register_profile_production : Text → Bool → Session → Checked Session
  unfolding ensure_profile_registered Text-discrete
  register_profile_production name production s = do
    ensure_profile_registered s.pipeline_mode name
    ok (record s {
      production_profiles = λ n. if n == name then production else s.production_profiles n;
    })

  unfoldable pub column_actions_for : ColumnActionMode → Text → Checked ColumnActionPolicy
  unfolding Text-discrete
  column_actions_for (single_profile n policy) name =
      if n == name then ok policy else err profile_mismatch
  column_actions_for (multi_profile policies) name = ok (or_no_actions (policies name))

  abbrev pub fields_of : Value → Checked Fields
  fields_of (object fs) = ok fs
  fields_of _ = err profile

  abbrev pub named_profile : Text → Option Text → Fields → Checked (Text × Fields)
  named_profile name none fs = ok (name, insert_field (codes "profile") (string name) fs)
  named_profile name (some p) fs = if p == name then ok (name, fs) else err profile_mismatch

  -- The profile of a call, and the fields of its arguments.
  unfoldable pub extract_profile : PipelineMode → Value → Checked (Text × Fields)
  unfolding get_field insert_field Text-discrete
  extract_profile (single_profile name pipeline) args = do
    fs ← fields_of args
    named_profile name (as_str (get_field (codes "profile") fs)) fs
  extract_profile (multi_profile pipelines) args = do
    fs ← fields_of args
    name ← ok_or profile (as_str (get_field (codes "profile") fs))
    if is_empty name then err profile else ok tt
    p ← ok_or profile_unknown (pipelines name)
    ok (name, fs)

  -- The source of the class, or why there is none: the name has one of the other class, or not.
  abbrev pub found_source : Option Source → Option Source → Checked Source
  found_source (some source) actual = ok source
  found_source none (some actual) = err profile_mismatch
  found_source none none = err profile_unknown

  abbrev pub lookup_source : Session → SourceClass → Text → Checked Source
  lookup_source s class name =
      found_source (s.sources class name) (s.sources (other_class class) name)

  -- What a source answers to a call, what gaze answers with a pipeline, and the bytes of a summary.
  module _ (dispatch : Source → ToolCall → Checked SourceOutput) (library : Pipeline → Library)
      (summary : CleanOutput → ResultSummary) where
    abbrev pub legacy_or : Option Source → ToolCall → Checked SourceOutput → Checked SourceOutput
    legacy_or (some source) call other = dispatch source call
    legacy_or none call other = other

    unfoldable pub invoke_source : Session → ToolCall → Text → Checked SourceOutput
    unfolding tool_kind
    invoke_source s call name = legacy_or (s.legacy_sources call.tool_name) call (do
      class ← ok_or source_error (tool_kind call.tool_name)
      source ← lookup_source s class name
      dispatch source call)

    -- The two flags say whether the source and the redaction exceed the timeout.
    unfoldable pub invoke_core_tool :
        (source_late redaction_late : Bool) → Session → ToolCall → Checked (CleanOutput × Session)
    unfolding extract_profile pipeline_for column_actions_for invoke_source redact_result
        Text-discrete
    invoke_core_tool source_late redaction_late s call = do
      (name, fs) ← extract_profile s.pipeline_mode call.args
      pipeline ← pipeline_for s.pipeline_mode name
      actions ← column_actions_for s.column_action_mode name
      raw ←
          if source_late
          then err operation_timeout
          else invoke_source s (record call { args = object fs }) name
      clean ←
          if redaction_late
          then err operation_timeout
          else redact_result (library pipeline) s.caps actions raw
      ok (clean, record s { core_summaries = put call.call_id (summary clean) s.core_summaries })
