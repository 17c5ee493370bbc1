-- ===== src/Policy/Remote.antt =====
-- What a remote profile's pipeline does with what it detects, src/policy.rs.
use gaze_lens.Prelude.{
  ◌≡◌, refl, sym, ap, ◌∙◌, inl, inr, Bool, true, false, not, ◌||◌, ◌==◌, Text-eq, if◌then◌else◌,
  Text, codes, List, [], ◌∷◌, ◌++◌, map, Option, none, some, any, is_empty, Result, ok, err, ◌>>=◌,
  ◌>>◌, All, All-append, bind_ok, ok_is, seq_ok, Bool-cases, Option-cases, arith,
}
use gaze_lens.Profiles.{Profile}
use gaze_lens.Policy.{
  PolicyFile, ColumnRule, LogsPolicy, NerSection, Action, tokenize, redact, PiiClass, PolicyError,
  Part, email_detector, ner_detector, column_rule, class_rule, strip_detector, default_rule, Gaze,
  unwrap_or, parse_action, is_strip_action, parse_log_strip_action, column_action_of, check,
  parse_class, check_patterns, default_action_of, ner_parts, column_parts, log_parts, log_strip,
  log_action_column, invalid_action, recognizer, pipeline, build_pipeline, is_safe, is_remote,
  is_some, enforce_remote_output_policy,
}

abbrev pub IsSafe : Action → Type 0
IsSafe action = is_strip_action action ≡ true

-- Whatever the part does with what it detects, it keeps nothing of it as it is.
abbrev pub Hides : Part → Type 0
Hides email_detector = Unit
Hides (ner_detector dir locale) = Unit
Hides (column_rule column action) = IsSafe action
Hides (class_rule class action) = IsSafe action
Hides (strip_detector pattern) = Unit
Hides (default_rule action) = IsSafe action

IsSafe-parse_action :
    (raw column : Text) (action : Action)
    → is_safe (some raw) ≡ true
    → parse_action raw column ≡ ok action
    → IsSafe action
unfolding is_safe parse_action
IsSafe-parse_action raw column action safe h = elim (Bool-cases (raw == codes "tokenize")) [
  | inl first ↦ ap is_strip_action (sym (ok_is {E = PolicyError} tokenize action (ground arith)))
  | inr other ↦
      let second : (raw == codes "redact") ≡ true = ground arith in
      ap is_strip_action (sym (ok_is {E = PolicyError} redact action (ground arith)))
]

strip_IsSafe :
    (raw : Option Text) (action : Action) → parse_log_strip_action raw ≡ ok action → IsSafe action
unfolding parse_log_strip_action
strip_IsSafe raw action h =
    let (parsed, (good, rest)) =
      bind_ok (parse_action (unwrap_or (codes "redact") raw) log_action_column)
        (λ a.
          if is_strip_action a
          then ok a
          else err (invalid_action log_action_column (unwrap_or (codes "redact") raw)))
        action h in
    elim (Bool-cases (is_strip_action parsed)) [
      | inl safe ↦
          ap is_strip_action (sym (ok_is {E = PolicyError} parsed action (ground arith))) ∙ safe
      | inr unsafe ↦ absurd (ground arith)
    ]

picked : {A : Type 0} (c b : Bool) (x y : A) → b ≡ c → (if c then x else y) ≡ (if b then x else y)
picked c b x y e = ap (λ t. if t then x else y) (sym e)

enforced_safe :
    (profile : Profile) (policy : PolicyFile)
    → is_remote profile.source ≡ true
    → enforce_remote_output_policy profile policy ≡ ok tt
    → (is_safe policy.policy.default_action ≡ true)
      × (any (λ r. not (is_safe (some (column_action_of r)))) policy.policy.column_rules ≡ false)
unfolding enforce_remote_output_policy
enforced_safe profile policy remote h =
    accepted (is_remote profile.source) (is_some profile.policy)
      (is_safe policy.policy.default_action)
      (any (λ r. not (is_safe (some (column_action_of r)))) policy.policy.column_rules) remote h
  where
    accepted :
        (remote given safe unsafe : Bool)
        → remote ≡ true
        → ◌≡◌ {A = Result (Unit {0}) (Unit {0})}
            (if not remote
              then ok tt
              else if not given || not safe || unsafe
              then err tt
              else ok tt)
            (ok tt)
        → (safe ≡ true) × (unsafe ≡ false)
    accepted remote given safe unsafe e h = (ground arith, ground arith)

module _ (gaze : Gaze) where
  is_safe-none : is_safe none ≡ false
  unfolding is_safe
  is_safe-none = refl

  Hides-nil :
      (parts : List Part)
      → (◌≡◌ {A = Result PolicyError (List Part)} (ok []) (ok parts))
      → All Hides parts
  Hides-nil parts h = rw (← ok_is {E = PolicyError} [] parts h) tt

  columns_hide :
      (rules : List ColumnRule) (parts : List Part)
      → any (λ r. not (is_safe (some (column_action_of r)))) rules ≡ false
      → column_parts gaze rules ≡ ok parts
      → All Hides parts
  unfolding column_parts
  columns_hide [] parts safe h = Hides-nil parts h
  columns_hide (rule ∷ rest) parts safe h =
      let made : Action → PiiClass → List Part → List Part =
        λ a c later. column_rule rule.column a ∷ class_rule c a ∷ later in
      let (action, (acts, h1)) =
        bind_ok (parse_action (column_action_of rule) rule.column)
          (λ a. parse_class gaze rule.class rule.column >>= λ c.
            column_parts gaze rest >>= λ later. ok (made a c later))
          parts h in
      let (class, (classed, h2)) =
        bind_ok (parse_class gaze rule.class rule.column)
          (λ c. column_parts gaze rest >>= λ later. ok (made action c later)) parts h1 in
      let (later, (rests, h3)) =
        bind_ok (column_parts gaze rest) (λ later. ok (made action class later)) parts h2 in
      let this : is_safe (some (column_action_of rule)) ≡ true = ground arith in
      let others : any (λ r. not (is_safe (some (column_action_of r)))) rest ≡ false =
        ground arith in
      let safe_here = IsSafe-parse_action (column_action_of rule) rule.column action this acts in
      rw (← ok_is {E = PolicyError} (made action class later) parts h3)
        (safe_here, (safe_here, columns_hide rest later others rests))

  strips_hide : (patterns : List Text) → All Hides (map strip_detector patterns)
  strips_hide [] = tt
  strips_hide (p ∷ rest) = (tt, strips_hide rest)

  logs_hide :
      (logs : Option LogsPolicy) (parts : List Part)
      → log_parts gaze logs ≡ ok parts
      → All Hides parts
  unfolding log_parts
  logs_hide none parts h = Hides-nil parts h
  logs_hide (some logs) parts h =
      let strips : Action → List Part =
        λ a. map strip_detector logs.strip_patterns ++ class_rule log_strip a ∷ [] in
      let rules : Result PolicyError (List Part) =
        parse_log_strip_action logs.action >>= λ a. ok (strips a) in
      let checked =
        (seq_ok (check_patterns gaze logs.strip_patterns)
          (if is_empty logs.strip_patterns then ok [] else rules) parts h).1 in
      elim (Bool-cases (is_empty logs.strip_patterns)) [
        | inl nothing ↦
            Hides-nil parts
              (picked true (is_empty logs.strip_patterns) (ok []) rules nothing ∙ checked)
        | inr some_strip ↦
            let ruled =
              picked false (is_empty logs.strip_patterns) (ok []) rules some_strip ∙ checked in
            let (action, (parsed, made)) =
              bind_ok (parse_log_strip_action logs.action) (λ a. ok (strips a)) parts ruled in
            let safe = strip_IsSafe logs.action action parsed in
            rw (← ok_is {E = PolicyError} (strips action) parts made) (
              All-append Hides (map strip_detector logs.strip_patterns)
                (class_rule log_strip action ∷ []) (strips_hide logs.strip_patterns) (safe, tt))
      ]

  ner_hide :
      (ner : NerSection) (parts : List Part) → ner_parts gaze ner ≡ ok parts → All Hides parts
  unfolding ner_parts
  ner_hide ner parts h = elim (Option-cases ner.model_dir) [
    | inl none_set ↦ Hides-nil parts (ground arith)
    | inr (dir, set) ↦ elim (Bool-cases (gaze.ner_loads dir ner.locale)) [
      | inl loads ↦
          rw (← ok_is {E = PolicyError} (ner_detector dir ner.locale ∷ []) parts (ground arith))
            (tt, tt)
      | inr fails ↦ absurd (ground arith)
    ]
  ]

  default_hides :
      (policy : PolicyFile) (action : Action)
      → is_safe policy.policy.default_action ≡ true
      → default_action_of gaze policy ≡ ok action
      → IsSafe action
  default_hides policy action safe h = elim (Option-cases policy.policy.default_action) [
    | inl missing ↦ absurd (ground (arith, is_safe-none, missing))
    | inr (raw, given) ↦
        IsSafe-parse_action raw (codes "policy.default_action") action
          (ap is_safe (sym given) ∙ safe)
          (ap (λ d. parse_action (unwrap_or (codes "preserve") d) (codes "policy.default_action"))
              (sym given)
            ∙ h)
  ]

  -- If a remote profile passes enforce_remote_output_policy and its pipeline builds, then every
  -- rule of the pipeline, for a column, a class, the patterns of logs or what nothing else
  -- matches, tokenizes or redacts.
  pub Hides-build_pipeline :
      (profile : Profile) (policy : PolicyFile) (parts : List Part)
      → is_remote profile.source ≡ true
      → enforce_remote_output_policy profile policy ≡ ok tt
      → build_pipeline gaze policy ≡ ok parts
      → All Hides parts
  unfolding build_pipeline
  Hides-build_pipeline profile policy parts remote enforced built =
      let rules = policy.policy.column_rules in
      let safe = enforced_safe profile policy remote enforced in
      let made : List Part → List Part → List Part → Action → List Part =
        λ ner columns logs default.
          email_detector ∷ ner ++ (columns ++ (logs ++ default_rule default ∷ [])) in
      let last : List Part → Result PolicyError (List Part) =
        λ ps. check pipeline (gaze.builds ps) >> ok ps in
      let with_default : List Part → List Part → List Part → Result PolicyError (List Part) =
        λ ner columns logs. default_action_of gaze policy >>= λ d. last (made ner columns logs d) in
      let with_logs : List Part → List Part → Result PolicyError (List Part) =
        λ ner columns. log_parts gaze policy.policy.logs >>= λ l. with_default ner columns l in
      let with_columns : List Part → Result PolicyError (List Part) =
        λ ner. column_parts gaze rules >>= λ c. with_logs ner c in
      let loaded =
        (seq_ok (check recognizer gaze.emails_load)
          (ner_parts gaze policy.ner >>= λ n. with_columns n) parts built).1 in
      let (ner, (ner_is, h1)) = bind_ok (ner_parts gaze policy.ner) with_columns parts loaded in
      let (columns, (columns_are, h2)) =
        bind_ok (column_parts gaze rules) (with_logs ner) parts h1 in
      let (logs, (logs_are, h3)) =
        bind_ok (log_parts gaze policy.policy.logs) (with_default ner columns) parts h2 in
      let (default, (default_is, h4)) =
        bind_ok (default_action_of gaze policy) (λ d. last (made ner columns logs d)) parts h3 in
      let whole = made ner columns logs default in
      let h5 = (seq_ok (check pipeline (gaze.builds whole)) (ok whole) parts h4).1 in
      let end =
        All-append Hides logs (default_rule default ∷ [])
          (logs_hide policy.policy.logs logs logs_are)
          (default_hides policy default safe.0 default_is, tt) in
      let middle =
        All-append Hides columns (logs ++ default_rule default ∷ [])
          (columns_hide rules columns safe.1 columns_are) end in
      rw (← ok_is {E = PolicyError} whole parts h5) (
        tt,
        All-append Hides ner (columns ++ (logs ++ default_rule default ∷ []))
            (ner_hide policy.ner ner ner_is) middle,
      )
