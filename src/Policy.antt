-- ===== src/Policy.antt =====
-- Policies and the pipelines that they build, src/policy.rs. The library `gaze` is given: whether a
-- detector loads, whether a pattern compiles, whether a list of parts builds; and so is of which
-- texts `str::trim` leaves nothing. A pipeline is the list of the parts that its builder was given.
pub mod Remote
pub mod Built
mod Tests
use gaze_lens.Prelude.{
  ℕ, suc, ◌+◌, Bool, true, false, not, ◌&&◌, ◌||◌, ◌==◌, ℕ_eq, ℕ_discrete, Text-eq, Text-discrete,
  if◌then◌else◌, Text, codes, List, [], ◌∷◌, ◌++◌, map, Option, none, some, any, all, is_empty,
  is_upper, Result, ok, err, ◌>>=◌, ◌>>◌, each,
}
use gaze_lens.Profiles.{Profile, SourceSpec, remote_mcp_log}

pub record SessionConfig : Type 0 where
  pub scope : Text
  pub ttl_secs : Option ℕ

pub record NerSection : Type 0 where
  pub model_dir : Option Text
  pub locale : Option Text

pub record ColumnRule : Type 0 where
  pub column : Text
  pub class : Text
  pub action : Option Text

pub record LogsPolicy : Type 0 where
  pub path : Option Text
  pub strip_patterns : List Text
  pub action : Option Text

pub record PolicySection : Type 0 where
  pub default_action : Option Text
  pub column_rules : List ColumnRule
  pub logs : Option LogsPolicy

-- PolicyFile, without the connections, which nothing here reads.
pub record PolicyFile : Type 0 where
  pub session : SessionConfig
  pub ner : NerSection
  pub policy : PolicySection

-- gaze::Action and gaze::PiiClass
pub data Action : Type 0 where
  tokenize redact format_preserve generalize preserve : Action

pub data PiiClass : Type 0 where
  email name location organization : PiiClass
  custom : Text → PiiClass

pub data PolicyError : Type 0 where
  invalid_action : (column action : Text) → PolicyError
  unknown_pii_class : (column class : Text) → PolicyError
  unsupported_session_scope : (scope : Text) → PolicyError
  pipeline : PolicyError
  recognizer : PolicyError
  production_ner_required : (profile : Text) → PolicyError

-- What the builder is given.
pub data Part : Type 0 where
  email_detector : Part
  ner_detector : (model_dir : Text) (locale : Option Text) → Part
  column_rule : (column : Text) (action : Action) → Part
  class_rule : (class : PiiClass) (action : Action) → Part
  strip_detector : (pattern : Text) → Part
  default_rule : Action → Part

pub record Gaze : Type 0 where
  pub emails_load : Bool
  pub ner_loads : Text → Option Text → Bool
  pub compiles : Text → Bool
  pub builds : List Part → Bool
  pub trims_to_empty : Text → Bool

abbrev pub unwrap_or : Text → Option Text → Text
unwrap_or default none = default
unwrap_or default (some t) = t

unfoldable pub parse_action : Text → Text → Result PolicyError Action
unfolding Text-discrete
parse_action raw column =
    if raw == codes "tokenize"
    then ok tokenize
    else if raw == codes "redact"
    then ok redact
    else if raw == codes "format_preserve"
    then ok format_preserve
    else if raw == codes "generalize"
    then ok generalize
    else if raw == codes "preserve"
    then ok preserve
    else err (invalid_action column raw)

abbrev pub log_action_column : Text
log_action_column = codes "policy.logs.action"

abbrev pub is_strip_action : Action → Bool
is_strip_action redact = true
is_strip_action tokenize = true
is_strip_action _ = false

unfoldable pub parse_log_strip_action : Option Text → Result PolicyError Action
unfolding parse_action
parse_log_strip_action raw = do
  action ← parse_action (unwrap_or (codes "redact") raw) log_action_column
  if is_strip_action action
      then ok action
      else err (invalid_action log_action_column (unwrap_or (codes "redact") raw))

abbrev pub column_action_of : ColumnRule → Text
column_action_of rule = unwrap_or (codes "tokenize") rule.action

-- `str::eq_ignore_ascii_case`
abbrev pub to_ascii_lowercase : Text → Text
to_ascii_lowercase t = map (λ b. if is_upper b then b + 32 else b) t

abbrev pub check : PolicyError → Bool → Result PolicyError (Unit {0})
check e holds = if holds then ok tt else err e

-- PolicyFile::to_gaze_policy: its scope and its time to live.
unfoldable pub to_gaze_policy : PolicyFile → Result PolicyError (Option ℕ)
unfolding Text-discrete
to_gaze_policy policy = do
  check (unsupported_session_scope policy.session.scope)
      (to_ascii_lowercase policy.session.scope == codes "conversation")
  ok policy.session.ttl_secs

abbrev pub log_strip : PiiClass
log_strip = custom (codes "log_strip")

module _ (gaze : Gaze) where
  unfoldable pub parse_class : Text → Text → Result PolicyError PiiClass
  unfolding Text-discrete
  parse_class raw column =
      if raw == codes "email"
      then ok email
      else if raw == codes "name"
      then ok name
      else if raw == codes "location"
      then ok location
      else if raw == codes "organization"
      then ok organization
      else if not (gaze.trims_to_empty raw)
      then ok (custom raw)
      else err (unknown_pii_class column raw)

  -- ColumnActionPolicy::from_policy_file, and the map that a later rule of a column replaces.
  unfoldable pub from_rules :
      (Text → Option (Action × PiiClass))
      → List ColumnRule
      → Result PolicyError (Text → Option (Action × PiiClass))
  unfolding parse_action parse_class Text-discrete
  from_rules actions [] = ok actions
  from_rules actions (rule ∷ rest) = do
    action ← parse_action (column_action_of rule) rule.column
    class ← parse_class rule.class rule.column
    from_rules (λ column. if column == rule.column then some (action, class) else actions column)
        rest

  unfoldable pub check_patterns : List Text → Result PolicyError (Unit {0})
  check_patterns patterns = each (λ p. check recognizer (gaze.compiles p)) patterns

  unfoldable pub check_logs : Option LogsPolicy → Result PolicyError (Unit {0})
  unfolding check_patterns parse_log_strip_action
  check_logs none = ok tt
  check_logs (some logs) = do
    check_patterns logs.strip_patterns
    if is_empty logs.strip_patterns
        then ok tt
        else do action ← parse_log_strip_action logs.action; ok tt

  abbrev pub default_action_of : PolicyFile → Result PolicyError Action
  default_action_of policy =
      parse_action (unwrap_or (codes "preserve") policy.policy.default_action)
        (codes "policy.default_action")

  unfoldable pub validate_policy_file : PolicyFile → Result PolicyError (Unit {0})
  unfolding to_gaze_policy from_rules parse_action check_logs
  validate_policy_file policy = do
    ttl ← to_gaze_policy policy
    actions ← from_rules (λ column. none) policy.policy.column_rules
    default ← default_action_of policy
    check_logs policy.policy.logs

  unfoldable pub ner_parts : NerSection → Result PolicyError (List Part)
  ner_parts ner = elim ner.model_dir [
    | none ↦ ok []
    | some dir ↦
        if gaze.ner_loads dir ner.locale
        then ok (ner_detector dir ner.locale ∷ [])
        else err pipeline
  ]

  unfoldable pub column_parts : List ColumnRule → Result PolicyError (List Part)
  unfolding parse_action parse_class
  column_parts [] = ok []
  column_parts (rule ∷ rest) = do
    action ← parse_action (column_action_of rule) rule.column
    class ← parse_class rule.class rule.column
    later ← column_parts rest
    ok (column_rule rule.column action ∷ class_rule class action ∷ later)

  unfoldable pub log_parts : Option LogsPolicy → Result PolicyError (List Part)
  unfolding check_patterns parse_log_strip_action
  log_parts none = ok []
  log_parts (some logs) = do
    check_patterns logs.strip_patterns
    if is_empty logs.strip_patterns then ok [] else do
      action ← parse_log_strip_action logs.action
      ok (map strip_detector logs.strip_patterns ++ class_rule log_strip action ∷ [])

  unfoldable pub build_pipeline : PolicyFile → Result PolicyError (List Part)
  unfolding ner_parts column_parts log_parts parse_action
  build_pipeline policy = do
    check recognizer gaze.emails_load
    ner ← ner_parts policy.ner
    columns ← column_parts policy.policy.column_rules
    logs ← log_parts policy.policy.logs
    default ← default_action_of policy
    let parts = email_detector ∷ ner ++ (columns ++ (logs ++ default_rule default ∷ []))
    check pipeline (gaze.builds parts)
    ok parts

unfoldable pub enforce_production_ner : Text → Bool → PolicyFile → Result PolicyError (Unit {0})
enforce_production_ner profile_name production policy = elim policy.ner.model_dir [
  | some dir ↦ ok tt
  | none ↦ if production then err (production_ner_required profile_name) else ok tt
]

-- `matches!(action, Some("tokenize" | "redact"))`
unfoldable pub is_safe : Option Text → Bool
unfolding Text-discrete
is_safe none = false
is_safe (some action) = action == codes "tokenize" || action == codes "redact"

abbrev pub is_remote : SourceSpec → Bool
is_remote (remote_mcp_log config) = true
is_remote _ = false

abbrev pub is_some : {A : Type 0} → Option A → Bool
is_some none = false
is_some (some a) = true

-- LensError::Profile is the one error.
unfoldable pub enforce_remote_output_policy : Profile → PolicyFile → Result (Unit {0}) (Unit {0})
unfolding is_safe
enforce_remote_output_policy profile policy =
    if not (is_remote profile.source)
    then ok tt
    else if not (is_some profile.policy)
        || not (is_safe policy.policy.default_action)
        || any (λ r. not (is_safe (some (column_action_of r)))) policy.policy.column_rules
    then err tt
    else ok tt
