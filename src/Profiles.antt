-- ===== src/Profiles.antt =====
-- Connection profiles and their merge, src/profile.rs. The proofs stand below.
pub mod Merge
pub mod Sources
pub mod Names
pub mod Secrets
mod Tests
use gaze_lens.Prelude.{
  ℕ, Bool, true, false, not, ◌&&◌, ◌||◌, ◌==◌, ℕ_eq, ℕ_discrete, Text-eq, Text-discrete, text_ltb,
  if◌then◌else◌, Text, List, [], ◌∷◌, ◌++◌, map, Option, none, some, is_empty, Result, ok, err,
  ◌>>◌,
}
use gaze_lens.Sets.{set_insert}
use gaze_lens.Retention.{AutoPurge, off, AutoPurge-eq, AutoPurge-discrete, cap_with}

pub data SecretSpec : Type 0 where
  env : Text → SecretSpec
  keyring : Text → Text → SecretSpec

-- The fields that Mysql and Postgres have alike.
pub record Database : Type 0 where
  pub host : Text
  pub port : ℕ
  pub database : Text
  pub username : Text
  pub password_env : Option Text
  pub secret : Option SecretSpec
  pub ssh_host : Option Text
  pub local_port : Option ℕ
  pub readonly_required : Bool

-- RemoteConfig of src/source/remote/mod.rs.
pub record RemoteConfig : Type 0 where
  pub endpoint : Text
  pub server_name : Text
  pub trust_root : Text
  pub resource : Text
  pub secret : SecretSpec

pub data SourceSpec : Type 0 where
  remote_mcp_log : RemoteConfig → SourceSpec
  mysql : Database → SourceSpec
  postgres : Database → SourceSpec
  sqlite : (path : Text) (readonly_required : Bool) (json_text_columns : List Text) → SourceSpec
  ssh_log : (host path : Text) → SourceSpec
  local_log : (path : Text) → SourceSpec

pub record Profile : Type 0 where
  pub name : Text
  pub source : SourceSpec
  pub discovered_from_ssh_host : Option Text
  pub discovered_from_path : Option Text
  pub discovered_at : Option Text
  pub discovered_ssh_host_key_fingerprint : Option Text
  pub credential_class : Option Text
  pub policy : Option Text
  pub schema_tokenize : Option Bool
  pub schema_allowlist : Option (List Text)
  pub production : Bool
  pub snapshot_retention_days : Option ℕ
  pub auto_purge : AutoPurge

-- UserOnlyAutoPurgeDowngrade, the one kind of warning.
pub record MergeWarning : Type 0 where
  pub profile : Text
  pub requested : AutoPurge

module _ {A : Type 0} where
  -- Option::or
  abbrev pub or : Option A → Option A → Option A
  or none other = other
  or (some a) other = some a

-- A user's text, unless it is empty.
abbrev pub or_project : Text → Text → Text
or_project user project = if is_empty user then project else user

abbrev pub merge_database : Database → Database → Database
merge_database user project = record project {
  host = or_project user.host project.host;
  port = if user.port == 0 then project.port else user.port;
  ssh_host = or user.ssh_host project.ssh_host;
  local_port = or user.local_port project.local_port;
}

unfoldable pub merge_source : SourceSpec → SourceSpec → SourceSpec
unfolding ℕ_discrete
merge_source (mysql user) (mysql project) = mysql (merge_database user project)
merge_source (postgres user) (postgres project) = postgres (merge_database user project)
merge_source (sqlite user_path _ user_columns) (sqlite path readonly_required columns) =
    sqlite (or_project user_path path) readonly_required
      (if is_empty columns then user_columns else columns)
merge_source (ssh_log user_host user_path) (ssh_log host path) =
    ssh_log (or_project user_host host) (or_project user_path path)
merge_source (local_log user_path) (local_log path) = local_log (or_project user_path path)
merge_source (remote_mcp_log user) (remote_mcp_log project) =
    remote_mcp_log (record user { resource = project.resource })
merge_source _ project = project

unfoldable pub merge_one : Profile → Profile → Profile
unfolding merge_source cap_with
merge_one user project = record {
  name = project.name;
  source = merge_source user.source project.source;
  discovered_from_ssh_host = or project.discovered_from_ssh_host user.discovered_from_ssh_host;
  discovered_from_path = or project.discovered_from_path user.discovered_from_path;
  discovered_at = or project.discovered_at user.discovered_at;
  discovered_ssh_host_key_fingerprint =
      or project.discovered_ssh_host_key_fingerprint user.discovered_ssh_host_key_fingerprint;
  credential_class = or project.credential_class user.credential_class;
  policy = or project.policy user.policy;
  schema_tokenize = or project.schema_tokenize user.schema_tokenize;
  schema_allowlist = or project.schema_allowlist user.schema_allowlist;
  production = project.production || user.production;
  snapshot_retention_days = or project.snapshot_retention_days user.snapshot_retention_days;
  auto_purge = cap_with project.auto_purge user.auto_purge;
}

unfoldable pub downgrade_user_only_profile : Profile → Profile × Option MergeWarning
unfolding AutoPurge-discrete
downgrade_user_only_profile user = (
  record user { auto_purge = off },
  if user.auto_purge == off
      then none
      else some (record { profile = user.name; requested = user.auto_purge }),
)

unfoldable pub names_of : List Profile → List Text
unfolding set_insert
names_of [] = []
names_of (p ∷ rest) = set_insert p.name (names_of rest)

-- A lookup in the BTreeMap that was collected by name: of equal names the last one stays.
unfoldable pub last_named : Text → List Profile → Option Profile
unfolding Text-discrete
last_named n [] = none
last_named n (p ∷ rest) = or (last_named n rest) (if p.name == n then some p else none)

abbrev pub merge_named : Option Profile → Option Profile → List Profile × List MergeWarning
merge_named (some user) (some project) = (merge_one user project ∷ [], [])
merge_named (some user) none =
    let (downgraded, warning) = downgrade_user_only_profile user in
    (downgraded ∷ [], elim warning [ none ↦ [] | some w ↦ w ∷ [] ])
merge_named none (some project) = (project ∷ [], [])
merge_named none none = ([], [])

unfoldable pub merge_names :
    List Profile → List Profile → List Text → List Profile × List MergeWarning
unfolding last_named merge_one downgrade_user_only_profile
merge_names users projects [] = ([], [])
merge_names users projects (n ∷ rest) =
    let (merged, warnings) = merge_named (last_named n users) (last_named n projects) in
    let (later, more) = merge_names users projects rest in (merged ++ later, warnings ++ more)

unfoldable pub merge_profiles : List Profile → List Profile → List Profile × List MergeWarning
unfolding merge_names names_of
merge_profiles users projects = merge_names users projects (names_of (users ++ projects))

pub data ProfileError : Type 0 where
  both_secrets no_secret no_database : Text → ProfileError

abbrev pub database_of : SourceSpec → Option Database
database_of (mysql d) = some d
database_of (postgres d) = some d
database_of _ = none

abbrev pub is_some : {A : Type 0} → Option A → Bool
is_some none = false
is_some (some a) = true

abbrev pub check_secrets : Profile → Result ProfileError (Unit {0})
check_secrets p = elim (database_of p.source) [
  | none ↦ ok tt
  | some d ↦
      if is_some d.password_env && is_some d.secret
      then err (both_secrets p.name)
      else if not (is_some d.password_env) && not (is_some d.secret)
      then err (no_secret p.name)
      else ok tt
]

unfoldable pub validate_post_merge : List Profile → Result ProfileError (Unit {0})
validate_post_merge [] = ok tt
validate_post_merge (p ∷ rest) = do check_secrets p; validate_post_merge rest

-- Profile::resolve_password, up to the question which store is asked.
unfoldable pub secret_source : Profile → Result ProfileError SecretSpec
secret_source p = elim (database_of p.source) [
  | none ↦ err (no_database p.name)
  | some d ↦ elim d.password_env [
    | none ↦ elim d.secret [ none ↦ err (no_secret p.name) | some s ↦ ok s ]
    | some var ↦ elim d.secret [ none ↦ ok (env var) | some s ↦ err (both_secrets p.name) ]
  ]
]
