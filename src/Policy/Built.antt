-- ===== src/Policy/Built.antt =====
-- A policy that is accepted builds, src/policy.rs.
use gaze_lens.Prelude.{
  ◌≡◌, refl, sym, ap, ◌∙◌, inl, inr, true, ◌==◌, Text-eq, if◌then◌else◌, Text, List, [], ◌∷◌, ◌++◌,
  map, Option, none, some, is_empty, Result, ok, ◌>>=◌, bind_ok, seq_ok, Bool-cases, Option-cases,
}
use gaze_lens.Policy.{
  PolicyFile, ColumnRule, LogsPolicy, NerSection, Action, PiiClass, PolicyError, Part,
  email_detector, ner_detector, column_rule, class_rule, strip_detector, default_rule, Gaze,
  parse_action, parse_log_strip_action, column_action_of, to_gaze_policy, parse_class, from_rules,
  check_patterns, check_logs, default_action_of, validate_policy_file, ner_parts, column_parts,
  log_parts, log_strip, build_pipeline,
}

abbrev Builds : Result PolicyError (List Part) → Type 0
Builds m = (parts : List Part) × (m ≡ ok parts)

abbrev Actions : Type 0
Actions = Text → Option (Action × PiiClass)

module _ (gaze : Gaze) where
  columns_build :
      (rules : List ColumnRule) (before after : Actions)
      → from_rules gaze before rules ≡ ok after
      → Builds (column_parts gaze rules)
  unfolding from_rules column_parts
  columns_build [] before after h = ([], refl)
  columns_build (rule ∷ rest) before after h =
      let next : Action → PiiClass → Actions =
        λ a c column. if column == rule.column then some (a, c) else before column in
      let (a, (acts, h1)) =
        bind_ok (parse_action (column_action_of rule) rule.column)
          (λ a. parse_class gaze rule.class rule.column >>= λ c. from_rules gaze (next a c) rest)
          after h in
      let (c, (classed, h2)) =
        bind_ok (parse_class gaze rule.class rule.column) (λ c. from_rules gaze (next a c) rest)
          after h1 in
      let (later, built) = columns_build rest (next a c) after h2 in
      (column_rule rule.column a ∷ class_rule c a ∷ later, rw (acts, classed, built) refl)

  logs_build :
      (logs : Option LogsPolicy) → check_logs gaze logs ≡ ok tt → Builds (log_parts gaze logs)
  unfolding check_logs log_parts
  logs_build none h = ([], refl)
  logs_build (some logs) h =
      let rules : Result PolicyError (Unit {0}) =
        parse_log_strip_action logs.action >>= λ a. ok tt in
      let parts =
        seq_ok (check_patterns gaze logs.strip_patterns)
          (if is_empty logs.strip_patterns then ok tt else rules) tt h in
      elim (Bool-cases (is_empty logs.strip_patterns)) [
        | inl nothing ↦ ([], rw (parts.0, nothing) refl)
        | inr some_strip ↦
            let ruled = ap (λ b. if b then ok tt else rules) (sym some_strip) ∙ parts.1 in
            let (a, (parsed, done)) =
              bind_ok (parse_log_strip_action logs.action) (λ a. ok tt) tt ruled in
            (
              map strip_detector logs.strip_patterns ++ class_rule log_strip a ∷ [],
              rw (parts.0, some_strip, parsed) refl,
            )
      ]

  ner_build :
      (ner : NerSection)
      → ((dir : Text) (locale : Option Text) → gaze.ner_loads dir locale ≡ true)
      → Builds (ner_parts gaze ner)
  unfolding ner_parts
  ner_build ner loads = elim (Option-cases ner.model_dir) [
    | inl missing ↦ ([], rw (missing, ner_parts) refl)
    | inr (dir, given) ↦
        (ner_detector dir ner.locale ∷ [], rw (given, loads dir ner.locale, ner_parts) refl)
  ]

  assembled :
      (policy : PolicyFile) (ner columns logs : List Part) (default : Action)
      → gaze.emails_load ≡ true
      → ner_parts gaze policy.ner ≡ ok ner
      → column_parts gaze policy.policy.column_rules ≡ ok columns
      → log_parts gaze policy.policy.logs ≡ ok logs
      → default_action_of gaze policy ≡ ok default
      → ((parts : List Part) → gaze.builds parts ≡ true)
      → Builds (build_pipeline gaze policy)
  unfolding build_pipeline
  assembled policy ner columns logs default emails ner_is columns_are logs_are default_is accepts =
      let whole = email_detector ∷ ner ++ (columns ++ (logs ++ default_rule default ∷ [])) in
      (whole, rw (emails, ner_is, columns_are, logs_are, default_is, accepts whole) refl)

  -- If validate_policy_file accepts a policy, its detectors load and the builder refuses no parts,
  -- then its pipeline builds.
  pub validated_builds :
      (policy : PolicyFile)
      → gaze.emails_load ≡ true
      → ((dir : Text) (locale : Option Text) → gaze.ner_loads dir locale ≡ true)
      → ((parts : List Part) → gaze.builds parts ≡ true)
      → validate_policy_file gaze policy ≡ ok tt
      → Builds (build_pipeline gaze policy)
  unfolding validate_policy_file
  validated_builds policy emails loads accepts valid =
      let rules = policy.policy.column_rules in
      let logs_ok : Result PolicyError (Unit {0}) = check_logs gaze policy.policy.logs in
      let after_rules : Result PolicyError (Unit {0}) =
        default_action_of gaze policy >>= λ d. logs_ok in
      let none_yet : Actions = λ column. none in
      let (ttl, (scoped, h1)) =
        bind_ok (to_gaze_policy policy) (λ t. from_rules gaze none_yet rules >>= λ m. after_rules)
          tt valid in
      let (actions, (ruled, h2)) =
        bind_ok (from_rules gaze none_yet rules) (λ m. after_rules) tt h1 in
      let (default, (default_is, logs_are)) =
        bind_ok (default_action_of gaze policy) (λ d. logs_ok) tt h2 in
      let ner = ner_build policy.ner loads in
      let columns = columns_build rules none_yet actions ruled in
      let logs = logs_build policy.policy.logs logs_are in
      assembled policy ner.0 columns.0 logs.0 default emails ner.1 columns.1 logs.1 default_is
        accepts
