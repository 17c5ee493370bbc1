-- ===== src/Profiles/Sources.antt =====
-- Which side of a merge decides what of a source.
use gaze_lens.Prelude.{◌≡◌, ◌≢◌, refl, Bool, Option, none, some, Text, []}
use gaze_lens.Profiles.{
  SecretSpec, Database, RemoteConfig, SourceSpec, remote_mcp_log, mysql, postgres, sqlite, ssh_log,
  local_log, merge_source,
}

pub data SourceKind : Type 0 where
  remote my pg lite ssh local : SourceKind

abbrev pub kind : SourceSpec → SourceKind
kind (remote_mcp_log _) = remote
kind (mysql _) = my
kind (postgres _) = pg
kind (sqlite _ _ _) = lite
kind (ssh_log _ _) = ssh
kind (local_log _) = local

-- What a source reads as which user, and whether it insists on a read-only account.
pub record Access : Type 0 where
  pub database : Text
  pub username : Text
  pub password_env : Option Text
  pub secret : Option SecretSpec
  pub readonly_required : Bool

abbrev pub of_database : Database → Access
of_database d = record {
  database = d.database;
  username = d.username;
  password_env = d.password_env;
  secret = d.secret;
  readonly_required = d.readonly_required;
}

abbrev pub access : SourceSpec → Option Access
access (mysql d) = some (of_database d)
access (postgres d) = some (of_database d)
access _ = none

abbrev pub readonly : SourceSpec → Option Bool
readonly (mysql d) = some d.readonly_required
readonly (postgres d) = some d.readonly_required
readonly (sqlite _ r _) = some r
readonly _ = none

abbrev pub resource_of : SourceSpec → Option Text
resource_of (remote_mcp_log c) = some c.resource
resource_of _ = none

-- What of a source its user's file may change: all of a remote log but the resource.
abbrev pub user_side : SourceSpec → Option RemoteConfig
user_side (remote_mcp_log c) = some (record c { resource = [] })
user_side _ = none

-- The project file alone decides the kind of a merged source, the database, user name, password
-- variable, secret and read-only demand of a database source, and the resource of a remote log.
-- Where the two files name the same kind, the endpoint, server name, trust root and secret of a
-- remote log are those of the user's file; where they name different kinds, the project's source is
-- taken as it is.
pub merge_source_trust :
    (user project : SourceSpec)
    → (kind (merge_source user project) ≡ kind project)
      × (access (merge_source user project) ≡ access project)
      × (readonly (merge_source user project) ≡ readonly project)
      × (resource_of (merge_source user project) ≡ resource_of project)
      × (kind user ≡ kind project → user_side (merge_source user project) ≡ user_side user)
      × (kind user ≢ kind project → merge_source user project ≡ project)
unfolding merge_source
merge_source_trust (mysql u) (mysql p) = (refl, refl, refl, refl, λ s. refl, λ n. absurd (n refl))
merge_source_trust (postgres u) (postgres p) =
    (refl, refl, refl, refl, λ s. refl, λ n. absurd (n refl))
merge_source_trust (sqlite a b c) (sqlite d e f) =
    (refl, refl, refl, refl, λ s. refl, λ n. absurd (n refl))
merge_source_trust (ssh_log a b) (ssh_log c d) =
    (refl, refl, refl, refl, λ s. refl, λ n. absurd (n refl))
merge_source_trust (local_log a) (local_log b) =
    (refl, refl, refl, refl, λ s. refl, λ n. absurd (n refl))
merge_source_trust (remote_mcp_log u) (remote_mcp_log p) =
    (refl, refl, refl, refl, λ s. refl, λ n. absurd (n refl))
merge_source_trust _ project = (refl, refl, refl, refl, λ s. absurd (cc), λ n. refl)
