-- ===== src/Profiles/Tests.antt =====
-- Two profile files on which the theorems about their merge are applied.
use gaze_lens.Prelude.{
  ◌≡◌, refl, ◌↔◌, ◌≢◌, true, false, Text, codes, List, [], ◌∷◌, ◌++◌, Option, none, some, In, Pairs,
  inl, ok, ℕ_discrete, Text-discrete,
}
use gaze_lens.Retention.{warn, purge}
use gaze_lens.Profiles.{
  Profile, SourceSpec, Database, SecretSpec, env, keyring, mysql, remote_mcp_log, local_log,
  merge_profiles, merge_source, validate_post_merge,
}
use gaze_lens.Profiles.Names.{names, names-merge_profiles}
use gaze_lens.Sets.{Before}
use gaze_lens.Profiles.Merge.{IsAuthorized, merge_authorizes}
use gaze_lens.Profiles.Sources.{kind, access, readonly, resource_of, user_side, merge_source_trust}

abbrev db : Text → Option SecretSpec → Database
db host secret = record {
  host = host;
  port = 3306;
  database = codes "app";
  username = codes "reader";
  password_env = none;
  secret = secret;
  ssh_host = none;
  local_port = none;
  readonly_required = true;
}

abbrev profile_of : Text → SourceSpec → Profile
profile_of name source = record {
  name = name;
  source = source;
  discovered_from_ssh_host = none;
  discovered_from_path = none;
  discovered_at = none;
  discovered_ssh_host_key_fingerprint = none;
  credential_class = none;
  policy = none;
  schema_tokenize = none;
  schema_allowlist = none;
  production = false;
  snapshot_retention_days = none;
  auto_purge = purge;
}

abbrev user_db : SourceSpec
user_db = mysql (db (codes "127.0.0.1") (some (env (codes "MINE"))))

abbrev project_db : SourceSpec
project_db = mysql (db (codes "db.internal") (some (keyring (codes "gaze") (codes "reader"))))

abbrev users : List Profile
users =
    profile_of (codes "dev") user_db
    ∷ profile_of (codes "mine") (local_log (codes "/tmp/a.log"))
    ∷ []

abbrev projects : List Profile
projects = record (profile_of (codes "dev") project_db) { auto_purge = warn } ∷ []

abbrev merged_dev : Profile
merged_dev =
    record (profile_of (codes "dev")
      (mysql (db (codes "127.0.0.1") (some (keyring (codes "gaze") (codes "reader")))))) {
        auto_purge = warn;
      }

merged_dev-In : In merged_dev (merge_profiles users projects).0
unfolding merge_profiles Text-discrete ℕ_discrete
merged_dev-In = inl refl

merge_authorizes_example : IsAuthorized users projects merged_dev
merge_authorizes_example = merge_authorizes users projects merged_dev merged_dev-In

names-merge_profiles_example :
    Pairs Before (names (merge_profiles users projects).0)
    × ((n : Text)
        → In n (names (merge_profiles users projects).0) ↔ In n (names (users ++ projects)))
names-merge_profiles_example = names-merge_profiles users projects

abbrev remote_log : Text → Text → SecretSpec → SourceSpec
remote_log endpoint resource secret = remote_mcp_log (record {
  endpoint = endpoint;
  server_name = codes "logs.internal";
  trust_root = codes "/etc/roots.pem";
  resource = resource;
  secret = secret;
})

abbrev user_log : SourceSpec
user_log = remote_log (codes "127.0.0.1:8443") (codes "other") (env (codes "MINE"))

abbrev project_log : SourceSpec
project_log = remote_log (codes "10.0.0.7:443") (codes "app") (keyring (codes "gaze") (codes "log"))

merge_source_trust_example :
    (kind (merge_source user_log project_log) ≡ kind project_log)
    × (access (merge_source user_log project_log) ≡ access project_log)
    × (readonly (merge_source user_log project_log) ≡ readonly project_log)
    × (resource_of (merge_source user_log project_log) ≡ resource_of project_log)
    × (kind user_log ≡ kind project_log
        → user_side (merge_source user_log project_log) ≡ user_side user_log)
    × (kind user_log ≢ kind project_log → merge_source user_log project_log ≡ project_log)
merge_source_trust_example = merge_source_trust user_log project_log

users_valid : validate_post_merge users ≡ ok tt
unfolding validate_post_merge
users_valid = refl
