-- ===== src/Server/Auth/Consistent.antt =====
-- What Authority::parse accepts.
use gaze_lens.Prelude.{
  ◌≤◌, ◌≡◌, ◌≢◌, ◌↔◌, true, false, List, length, All, Pairs, In, arith, ok, any, any_none,
  any_of_none, In-any, any-In, All-mono, each_after-eq-ok, each_after_ok, ◌&&◌, ◌||◌, ◌==◌, Text-eq,
}
use gaze_lens.Protocol.Bounds.{hex, configured_id}
use gaze_lens.Protocol.Wire.{Operation-eq}
use gaze_lens.Server.Auth.{
  Principal, Resource, Grant, Authority, check, check_principal, check_resource, check_grant,
}

abbrev pub IsShapedPrincipal : Principal → Type 0
IsShapedPrincipal p = (hex p.id 32 ≡ true) × (hex p.generation 32 ≡ true) × (hex p.sha256 64 ≡ true)

abbrev pub OtherPrincipals : Principal → Principal → Type 0
OtherPrincipals x p = (x.id ≢ p.id) × (x.sha256 ≢ p.sha256)

-- The alias is well formed, and no principal has the id.
abbrev pub IsShapedResource : List Principal → Resource → Type 0
IsShapedResource principals r =
    (configured_id r.alias ≡ ok tt)
    × (hex r.id 32 ≡ true)
    × (hex r.generation 32 ≡ true)
    × All (λ p. p.id ≢ r.id) principals

abbrev pub OtherResources : Resource → Resource → Type 0
OtherResources x r = (x.id ≢ r.id) × (x.alias ≢ r.alias)

-- Both ends of the grant are enrolled.
abbrev pub IsGrounded : Authority → Grant → Type 0
IsGrounded a g =
    ((p : Principal) × In p a.principals × (p.id ≡ g.principal))
    × ((r : Resource) × In r a.resources × (r.id ≡ g.resource))

abbrev pub OtherGrants : Grant → Grant → Type 0
OtherGrants x g =
    ¬ ((x.principal ≡ g.principal) × (x.resource ≡ g.resource) × (x.operation ≡ g.operation))

pub record IsConsistent (a : Authority) : Type 0 where
  pub few_principals : length a.principals ≤ 128
  pub few_resources : length a.resources ≤ 128
  pub few_grants : length a.grants ≤ 1024
  pub principals : All IsShapedPrincipal a.principals
  pub principals_apart : Pairs OtherPrincipals a.principals
  pub resources : All (IsShapedResource a.principals) a.resources
  pub resources_apart : Pairs OtherResources a.resources
  pub grants : All (IsGrounded a) a.grants
  pub grants_apart : Pairs OtherGrants a.grants

principal_sound :
    (before : List Principal) (p : Principal)
    → check_principal before p ≡ ok tt
    → IsShapedPrincipal p × All (λ x. OtherPrincipals x p) before
principal_sound before p h =
    let none : any (λ x. x.id == p.id || x.sha256 == p.sha256) before ≡ false = ground arith in
    (
      (ground arith, ground arith, ground arith),
      All-mono (λ x e. ((λ q. ground arith), (λ q. ground arith))) before (any_none _ before none),
    )

principal_complete :
    (before : List Principal) (p : Principal)
    → IsShapedPrincipal p
    → All (λ x. OtherPrincipals x p) before
    → check_principal before p ≡ ok tt
principal_complete before p s h = ground (
  arith,
  any_of_none (λ x. x.id == p.id || x.sha256 == p.sha256) before
      (All-mono (λ x q. ground arith) before h),
)

module _ (principals : List Principal) where
  resource_sound :
      (before : List Resource) (r : Resource)
      → check_resource principals before r ≡ ok tt
      → IsShapedResource principals r × All (λ x. OtherResources x r) before
  resource_sound before r h =
      let none : any (λ x. x.id == r.id || x.alias == r.alias) before ≡ false = ground arith in
      let free : any (λ p. p.id == r.id) principals ≡ false = ground arith in
      (
        (
          ground arith,
          ground arith,
          ground arith,
          All-mono (λ p e q. ground arith) principals (any_none _ principals free),
        ),
        All-mono (λ x e. ((λ q. ground arith), (λ q. ground arith))) before
            (any_none _ before none),
      )

  resource_complete :
      (before : List Resource) (r : Resource)
      → IsShapedResource principals r
      → All (λ x. OtherResources x r) before
      → check_resource principals before r ≡ ok tt
  resource_complete before r s h = ground (
    arith,
    any_of_none (λ p. p.id == r.id) principals (All-mono (λ p q. ground arith) principals s.3),
    any_of_none (λ x. x.id == r.id || x.alias == r.alias) before
        (All-mono (λ x q. ground arith) before h),
  )

module _ (a : Authority) where
  grant_sound :
      (before : List Grant) (g : Grant)
      → check_grant a before g ≡ ok tt
      → IsGrounded a g × All (λ x. OtherGrants x g) before
  grant_sound before g h =
      let who : any (λ p. p.id == g.principal) a.principals ≡ true = ground arith in
      let what : any (λ r. r.id == g.resource) a.resources ≡ true = ground arith in
      let none : any
            (λ x.
              x.principal == g.principal && x.resource == g.resource && x.operation == g.operation)
            before
          ≡ false =
        ground arith in
      let (p, in_p, id_p) = In-any (λ p. p.id == g.principal) a.principals who in
      let (r, in_r, id_r) = In-any (λ r. r.id == g.resource) a.resources what in
      (
        ((p, in_p, ground arith), (r, in_r, ground arith)),
        All-mono (λ x e. λ q. ground arith) before (any_none _ before none),
      )

  grant_complete :
      (before : List Grant) (g : Grant)
      → IsGrounded a g
      → All (λ x. OtherGrants x g) before
      → check_grant a before g ≡ ok tt
  grant_complete before g ((p, in_p, id_p), (r, in_r, id_r)) h = ground (
    arith,
    any-In (λ p. p.id == g.principal) a.principals p in_p (ground arith),
    any-In (λ r. r.id == g.resource) a.resources r in_r (ground arith),
    any_of_none
        (λ x. x.principal == g.principal && x.resource == g.resource && x.operation == g.operation)
        before (All-mono (λ x q. grind arith) before h),
  )

-- Authority::parse accepts a value that serde_json has read exactly when it keeps the three counts,
-- every id, generation and digest is well shaped, no id, digest or alias stands twice, principals and
-- resources share no id, and every grant joins an enrolled principal and resource, at most one for
-- each operation; the value is then returned as it is.
pub check_iff : (a : Authority) → (check a ≡ ok a) ↔ IsConsistent a
unfolding check
check_iff a = (sound, complete)
  where
    sound : check a ≡ ok a → IsConsistent a
    sound h =
        let (ps, ps') =
          each_after-eq-ok IsShapedPrincipal OtherPrincipals check_principal principal_sound
            a.principals (ground arith) in
        let (rs, rs') =
          each_after-eq-ok (IsShapedResource a.principals) OtherResources
            (check_resource a.principals) (resource_sound a.principals) a.resources
            (ground arith) in
        let (gs, gs') =
          each_after-eq-ok (IsGrounded a) OtherGrants (check_grant a) (grant_sound a) a.grants
            (ground arith) in
        record {
          few_principals = ground arith;
          few_resources = ground arith;
          few_grants = ground arith;
          principals = ps;
          principals_apart = ps';
          resources = rs;
          resources_apart = rs';
          grants = gs;
          grants_apart = gs';
        }

    complete : IsConsistent a → check a ≡ ok a
    complete c = ground (
      arith,
      c.few_principals,
      c.few_resources,
      c.few_grants,
      each_after_ok IsShapedPrincipal OtherPrincipals check_principal principal_complete
          a.principals c.principals c.principals_apart,
      each_after_ok (IsShapedResource a.principals) OtherResources (check_resource a.principals)
          (resource_complete a.principals) a.resources c.resources c.resources_apart,
      each_after_ok (IsGrounded a) OtherGrants (check_grant a) (grant_complete a) a.grants c.grants
          c.grants_apart,
    )
