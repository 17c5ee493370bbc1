-- ===== src/Policy/Tests.antt =====
-- A policy of a remote profile.
use gaze_lens.Prelude.{
  ◌≡◌, refl, true, false, codes, List, [], ◌∷◌, none, some, ok, All, all, ◌==◌, ℕ_eq,
}
use gaze_lens.Retention.{off}
use gaze_lens.Profiles.{Profile, SecretSpec, remote_mcp_log}
use gaze_lens.Policy.{
  PolicyFile, Part, email_detector, column_rule, class_rule, strip_detector, default_rule, Gaze,
  tokenize, redact, email, custom, validate_policy_file, build_pipeline,
  enforce_remote_output_policy,
}
use gaze_lens.Policy.Remote.{Hides, Hides-build_pipeline}

abbrev gaze : Gaze
gaze = record {
  emails_load = true;
  ner_loads = λ dir locale. true;
  compiles = λ p. true;
  builds = λ ps. true;
  trims_to_empty = all (λ c. c == b' ');
}

abbrev a_policy : PolicyFile
a_policy = record {
  session = record { scope = codes "Conversation"; ttl_secs = none };
  ner = record { model_dir = none; locale = none };
  policy = record {
    default_action = some (codes "tokenize");
    column_rules = record { column = codes "mail"; class = codes "email"; action = none } ∷ [];
    logs = some (record { path = none; strip_patterns = codes "sid=[0-9]+" ∷ []; action = none });
  };
}

abbrev a_profile : Profile
a_profile = record {
  name = codes "app";
  source = remote_mcp_log (record {
    endpoint = codes "host:1";
    server_name = codes "host";
    trust_root = codes "/ca";
    resource = codes "log";
    secret = SecretSpec.env (codes "TOKEN");
  });
  discovered_from_ssh_host = none;
  discovered_from_path = none;
  discovered_at = none;
  discovered_ssh_host_key_fingerprint = none;
  credential_class = none;
  policy = some (codes "policy.toml");
  schema_tokenize = none;
  schema_allowlist = none;
  production = false;
  snapshot_retention_days = none;
  auto_purge = off;
}

abbrev parts : List Part
parts =
    email_detector
    ∷ column_rule (codes "mail") tokenize
    ∷ class_rule email tokenize
    ∷ strip_detector (codes "sid=[0-9]+")
    ∷ class_rule (custom (codes "log_strip")) redact
    ∷ default_rule tokenize
    ∷ []

built : build_pipeline gaze a_policy ≡ ok parts
unfolding build_pipeline
built = refl

enforced : enforce_remote_output_policy a_profile a_policy ≡ ok tt
unfolding enforce_remote_output_policy
enforced = refl

valid : validate_policy_file gaze a_policy ≡ ok tt
unfolding validate_policy_file
valid = refl

Hides-build_pipeline_example : All Hides parts
Hides-build_pipeline_example =
    Hides-build_pipeline gaze a_profile a_policy parts refl enforced built
