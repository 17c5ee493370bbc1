-- ===== src/Server/Auth.antt =====
-- Connection-pinned authority, crates/gaze-lens-server/src/auth.rs. The proofs stand below.
pub mod Consistent
pub mod Pin
mod Tests
use gaze_lens.Prelude.{
  ℕ, Bool, true, false, not, ◌&&◌, ◌||◌, ◌==◌, Eq, Text-eq, Text-discrete, if◌then◌else◌, ltb, Text,
  List, [], ◌∷◌, ◌++◌, Option, none, some, length, any, find, ok, err, ◌>>=◌, ◌>>◌, ok_or,
  each_after,
}
use gaze_lens.Protocol.Errors.{Checked, unauthorized, binding_changed}
use gaze_lens.Protocol.Bounds.{cap, hex, configured_id}
use gaze_lens.Protocol.Wire.{
  Operation, Operation-eq, Operation-discrete, DestinationBinding, Prepare,
}

pub record Principal : Type 0 where
  pub id : Text
  pub generation : Text
  pub sha256 : Text

pub data ResourceClass : Type 0 where
  database log : ResourceClass

pub record Resource : Type 0 where
  pub alias : Text
  pub id : Text
  pub generation : Text
  pub class : ResourceClass

pub record Grant : Type 0 where
  pub principal : Text
  pub resource : Text
  pub operation : Operation
  pub enabled : Bool
  pub expires_unix : ℕ

pub record Authority : Type 0 where
  pub principals : List Principal
  pub resources : List Resource
  pub grants : List Grant

pub record Pinned : Type 0 where
  pub principal : Principal
  pub resource : Resource
  pub operation : Operation
  pub binding : DestinationBinding

unfoldable pub Principal-discrete : Discrete Principal
unfolding Text-discrete
Principal-discrete = hlevel Text-discrete

unfoldable pub ResourceClass-discrete : Discrete ResourceClass
ResourceClass-discrete = hlevel

unfoldable pub Resource-discrete : Discrete Resource
unfolding Text-discrete ResourceClass-discrete
Resource-discrete = hlevel (Text-discrete, ResourceClass-discrete)

instance abbrev pub Principal-eq : Eq Principal
Principal-eq = record { dec = Principal-discrete }

instance abbrev pub Resource-eq : Eq Resource
Resource-eq = record { dec = Resource-discrete }

-- One round of each of the three loops of Authority::parse; `before` is the slice `[..i]`.
abbrev pub principal_ok : List Principal → Principal → Bool
principal_ok before p =
    hex p.id 32
    && hex p.generation 32
    && hex p.sha256 64
    && not (any (λ x. x.id == p.id || x.sha256 == p.sha256) before)

abbrev pub check_principal : List Principal → Principal → Checked (Unit {0})
check_principal before p = if principal_ok before p then ok tt else err unauthorized

abbrev pub resource_ok : List Principal → List Resource → Resource → Bool
resource_ok principals before r =
    hex r.id 32
    && hex r.generation 32
    && not (any (λ p. p.id == r.id) principals)
    && not (any (λ x. x.id == r.id || x.alias == r.alias) before)

abbrev pub check_resource : List Principal → List Resource → Resource → Checked (Unit {0})
check_resource principals before r = do
  configured_id r.alias
  if resource_ok principals before r then ok tt else err unauthorized

abbrev pub grant_ok : Authority → List Grant → Grant → Bool
grant_ok a before g =
    any (λ p. p.id == g.principal) a.principals
    && any (λ r. r.id == g.resource) a.resources
    && not (
        any
          (λ x.
            x.principal == g.principal && x.resource == g.resource && x.operation == g.operation)
          before)

abbrev pub check_grant : Authority → List Grant → Grant → Checked (Unit {0})
check_grant a before g = if grant_ok a before g then ok tt else err unauthorized

-- What Authority::parse checks of the value that serde_json has read.
unfoldable pub check : Authority → Checked Authority
unfolding each_after configured_id hex Text-discrete Operation-discrete
check a = do
  cap (length a.principals) 128
  cap (length a.resources) 128
  cap (length a.grants) 1024
  each_after check_principal [] a.principals
  each_after (check_resource a.principals) [] a.resources
  each_after (check_grant a) [] a.grants
  ok a

-- `principals.iter().fold(None, …)`: every entry is compared, and the last match wins.
unfoldable pub fold_principals : Text → Option Principal → List Principal → Option Principal
fold_principals digest found [] = found
fold_principals digest found (x ∷ rest) =
    fold_principals digest (if x.sha256 == digest then some x else found) rest

abbrev pub permits : Text → Text → Operation → ℕ → Grant → Bool
permits p r op now g =
    g.principal == p && g.resource == r && g.operation == op && g.enabled && ltb now g.expires_unix

unfoldable pub grant : Authority → Text → Text → Operation → ℕ → Checked (Unit {0})
grant a p r op now = if any (permits p r op now) a.grants then ok tt else err unauthorized

abbrev pub pin_of : Principal → Resource → Operation → Pinned
pin_of principal resource operation = record {
  principal = principal;
  resource = resource;
  operation = operation;
  binding = record {
    principal = principal.id;
    principal_generation = principal.generation;
    resource = resource.id;
    resource_generation = resource.generation;
  };
}

-- `sha256` is the digest of the credential in lowercase hex.
module _ (sha256 : Text → Text) where
  unfoldable pub prepare : Authority → Prepare → ℕ → Checked Pinned
  prepare a p now = do
    principal ← ok_or unauthorized (fold_principals (sha256 p.credential) none a.principals)
    resource ← ok_or unauthorized (find (λ x. x.alias == p.resource) a.resources)
    grant a principal.id resource.id p.operation now
    ok (pin_of principal resource p.operation)

unfoldable pub revalidate : Authority → Pinned → ℕ → Checked (Unit {0})
revalidate a pin now =
    if not (any (λ p. p == pin.principal) a.principals)
      || not (any (λ r. r == pin.resource) a.resources)
    then err binding_changed
    else grant a pin.principal.id pin.resource.id pin.operation now
