-- ===== src/Server/Auth/Pin.antt =====
-- What Prepare pins, and what a later check of the pin asks.
use gaze_lens.Prelude.{
  ℕ, ◌<◌, ◌≡◌, ◌≢◌, refl, sym, ap, ◌↔◌, ◌⊎◌, true, false, List, [], ◌∷◌, All, Pairs, In, Pairs-In,
  All-mono, arith, ok, err, any, In-any, any-In, find-In, find_only, inl, inr, Text, ◌==◌, Text-eq,
  Option, none, some, find, Bool-cases, Option-cases, if◌then◌else◌,
}
use gaze_lens.Protocol.Errors.{binding_changed}
use gaze_lens.Protocol.Wire.{Operation, Prepare}
use gaze_lens.Server.Auth.{
  Principal, Resource, Grant, Authority, Pinned, fold_principals, permits, grant, pin_of, prepare,
  revalidate, Principal-eq, Resource-eq,
}
use gaze_lens.Server.Auth.Consistent.{IsConsistent, OtherPrincipals, OtherResources}

-- A grant of the authority that is enabled and has not expired at `now`.
pub record IsGranted (a : Authority) (p r : Text) (op : Operation) (now : ℕ) : Type 0 where
  pub entry : Grant
  pub listed : In entry a.grants
  pub principal : entry.principal ≡ p
  pub resource : entry.resource ≡ r
  pub operation : entry.operation ≡ op
  pub enabled : entry.enabled ≡ true
  pub unexpired : now < entry.expires_unix

module _ (a : Authority) (p r : Text) (op : Operation) (now : ℕ) where
  pub grant_iff : (grant a p r op now ≡ ok tt) ↔ IsGranted a p r op now
  unfolding grant
  grant_iff = (sound, complete)
    where
      sound : grant a p r op now ≡ ok tt → IsGranted a p r op now
      sound h =
          let passed : any (permits p r op now) a.grants ≡ true = ground arith in
          let (g, m, e) = In-any (permits p r op now) a.grants passed in
          record {
            entry = g;
            listed = m;
            principal = ground arith;
            resource = ground arith;
            operation = ground arith;
            enabled = ground arith;
            unexpired = ground arith;
          }

      complete : IsGranted a p r op now → grant a p r op now ≡ ok tt
      complete g =
          ground (arith, any-In (permits p r op now) a.grants g.entry g.listed (ground arith))

-- The principal that the fold answers is the earlier answer or stands in the list.
fold_sound :
    (digest : Text) (found : Option Principal) (xs : List Principal) (p : Principal)
    → fold_principals digest found xs ≡ some p
    → (found ≡ some p) ⊎ (In p xs × (p.sha256 ≡ digest))
unfolding fold_principals
fold_sound digest found [] p h = inl h
fold_sound digest found (x ∷ xs) p h = elim (Bool-cases (x.sha256 == digest)) [
  | inl same ↦ elim (fold_sound digest (some x) xs p (rw (same, fold_principals) at h)) [
    | inl e ↦ inr (inl (ground arith), ground arith)
    | inr (m, q) ↦ inr (inr m, q)
  ]
  | inr other ↦ elim (fold_sound digest found xs p (rw (other, fold_principals) at h)) [
    | inl e ↦ inl e
    | inr (m, q) ↦ inr (inr m, q)
  ]
]

-- With distinct digests the last match is the only one.
fold_complete :
    (digest : Text) (found : Option Principal) (xs : List Principal) (p : Principal)
    → Pairs OtherPrincipals xs
    → (found ≡ some p) × All (λ x. x.sha256 ≢ digest) xs ⊎ In p xs
    → p.sha256 ≡ digest
    → fold_principals digest found xs ≡ some p
unfolding fold_principals
fold_complete digest found [] p apart (inl (e, others)) same = e
fold_complete digest found [] p apart (inr m) same = absurd m
fold_complete digest found (x ∷ xs) p (a, apart) (inl (e, others)) same =
    let skip : (x.sha256 == digest) ≡ false = ground arith in
    rw (skip) (fold_complete digest found xs p apart (inl (e, others.1)) same)
fold_complete digest found (x ∷ xs) p (a, apart) (inr (inl here)) same =
    let hit : (x.sha256 == digest) ≡ true = ground arith in
    rw hit (fold_complete digest (some x) xs p apart (inl (ap some (sym here), others)) same)
  where
    others : All (λ y. y.sha256 ≢ digest) xs
    others = All-mono (λ y o e. o.1 (ground arith)) xs a
fold_complete digest found (x ∷ xs) p (a, apart) (inr (inr later)) same =
    fold_complete digest (if x.sha256 == digest then some x else found) xs p apart (inr later) same

-- What a successful Prepare pins, from which parts of the authority.
pub record IsPinned (sha256 : Text → Text) (a : Authority) (p : Prepare) (now : ℕ) (pin : Pinned)
    : Type 0 where
  pub principal : In pin.principal a.principals
  pub credential : pin.principal.sha256 ≡ sha256 p.credential
  pub resource : In pin.resource a.resources
  pub alias : pin.resource.alias ≡ p.resource
  pub operation : pin.operation ≡ p.operation
  pub pinned : pin ≡ pin_of pin.principal pin.resource pin.operation
  pub granted : IsGranted a pin.principal.id pin.resource.id pin.operation now

module _ (sha256 : Text → Text) (a : Authority) (p : Prepare) (now : ℕ) (pin : Pinned) where
  prepare_sound : prepare sha256 a p now ≡ ok pin → IsPinned sha256 a p now pin
  unfolding prepare
  prepare_sound h = elim (Option-cases (fold_principals (sha256 p.credential) none a.principals)) [
    | inl e ↦ absurd (ground arith)
    | inr (who, e) ↦ elim (Option-cases (find (λ x. x.alias == p.resource) a.resources)) [
      | inl f ↦ absurd (ground arith)
      | inr (what, f) ↦
          let allowed : grant a who.id what.id p.operation now ≡ ok tt = ground arith in
          let is : pin ≡ pin_of who what p.operation = ground arith in
          let (m, alias) = find-In (λ x. x.alias == p.resource) a.resources f in
          elim (fold_sound (sha256 p.credential) none a.principals who e) [
            | inl never ↦ absurd (ground arith)
            | inr (k, same) ↦ rw is (record {
              principal = k;
              credential = same;
              resource = m;
              alias = ground arith;
              operation = refl;
              pinned = refl;
              granted = (grant_iff a who.id what.id p.operation now).0 allowed;
            })
          ]
    ]
  ]

  one_alias :
      IsConsistent a
      → IsPinned sha256 a p now pin
      → (r : Resource) → In r a.resources
      → (r.alias == p.resource) ≡ true
      → r ≡ pin.resource
  one_alias c i r m e = elim (Pairs-In OtherResources a.resources c.resources_apart m i.resource) [
    | inl same ↦ same
    | inr (inl o) ↦ absurd (o.1 (ground (arith, i.alias)))
    | inr (inr o) ↦ absurd (o.1 (ground (arith, i.alias)))
  ]

  prepare_complete : IsConsistent a → IsPinned sha256 a p now pin → prepare sha256 a p now ≡ ok pin
  unfolding prepare
  prepare_complete c i =
      let who =
        fold_complete (sha256 p.credential) none a.principals pin.principal c.principals_apart
          (inr i.principal) i.credential in
      let what =
        find_only (λ x. x.alias == p.resource) a.resources pin.resource i.resource
          (ground (arith, i.alias)) (one_alias c i) in
      let allowed : grant a pin.principal.id pin.resource.id p.operation now ≡ ok tt =
        rw (← i.operation)
          ((grant_iff a pin.principal.id pin.resource.id pin.operation now).1 i.granted) in
      rw (who, what, allowed) (ground (arith, i.pinned, i.operation))

  -- In a consistent authority a Prepare at time `now` pins exactly the enrolled principal with the
  -- digest of its credential and the enrolled resource with its alias, the operation that it names
  -- and the ids and generations of the two, and succeeds exactly when an enabled grant for these
  -- three expires after `now`.
  pub prepare_iff : IsConsistent a → (prepare sha256 a p now ≡ ok pin) ↔ IsPinned sha256 a p now pin
  prepare_iff c = (prepare_sound, prepare_complete c)

-- Whether the authority still holds what was pinned, field for field.
pub record Holds (a : Authority) (pin : Pinned) : Type 0 where
  pub principal : In pin.principal a.principals
  pub resource : In pin.resource a.resources

module _ (a : Authority) (pin : Pinned) (now : ℕ) where
  holds_principal :
      any (λ p. p == pin.principal) a.principals ≡ true → In pin.principal a.principals
  holds_principal h =
      let (p, m, e) = In-any (λ p. p == pin.principal) a.principals h in
      let same : p ≡ pin.principal = ground arith in rw (← same) m

  holds_resource : any (λ r. r == pin.resource) a.resources ≡ true → In pin.resource a.resources
  holds_resource h =
      let (r, m, e) = In-any (λ r. r == pin.resource) a.resources h in
      let same : r ≡ pin.resource = ground arith in rw (← same) m

  Holds-tests :
      Holds a pin
      → (any (λ p. p == pin.principal) a.principals ≡ true)
        × (any (λ r. r == pin.resource) a.resources ≡ true)
  Holds-tests h = (
    any-In (λ p. p == pin.principal) a.principals pin.principal h.principal (ground arith),
    any-In (λ r. r == pin.resource) a.resources pin.resource h.resource (ground arith),
  )

  -- A later check of a pin passes exactly when the authority still holds the pinned principal and
  -- resource, field for field, and an unexpired enabled grant for the pinned operation; it reports a
  -- changed binding exactly when the principal or the resource is no longer held.
  pub revalidate_iff :
      ((revalidate a pin now ≡ ok tt)
        ↔ (Holds a pin × IsGranted a pin.principal.id pin.resource.id pin.operation now))
      × ((revalidate a pin now ≡ err binding_changed) ↔ ¬ Holds a pin)
  unfolding revalidate grant
  revalidate_iff = (
    (
      (λ h. (
        record {
          principal = holds_principal (ground arith);
          resource = holds_resource (ground arith);
        },
        (grant_iff a pin.principal.id pin.resource.id pin.operation now).0 (ground arith),
      )),
      λ (h, g). ground (
        arith,
        Holds-tests h,
        (grant_iff a pin.principal.id pin.resource.id pin.operation now).1 g,
      ),
    ),
    ((λ e h. ground (arith, Holds-tests h)), λ n. changed n (Bool-cases _) (Bool-cases _)),
  )
    where
      changed :
          ¬ Holds a pin
          → ((any (λ p. p == pin.principal) a.principals ≡ true)
              ⊎ (any (λ p. p == pin.principal) a.principals ≡ false))
          → ((any (λ r. r == pin.resource) a.resources ≡ true)
              ⊎ (any (λ r. r == pin.resource) a.resources ≡ false))
          → revalidate a pin now ≡ err binding_changed
      changed n (inl p) (inl r) =
          absurd (n (record { principal = holds_principal p; resource = holds_resource r }))
      changed n (inr p) r = ground arith
      changed n (inl p) (inr r) = ground arith
