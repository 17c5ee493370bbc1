-- ===== src/Server/Startup/Sorting.antt =====
-- The identities of a consistent authority are what Ledger::enroll asks for.
use gaze_lens.Prelude.{
  ◌≡◌, ◌≢◌, sym, ◌∙◌, true, List, [], ◌∷◌, ◌++◌, Text, All, All-append, Pairs, Pairs-append,
  All-comm, collect, All-collect, Pairs-collect, text_ltb, Bool-cases, Result-cases, arith, ok, inl,
  inr,
}
use gaze_lens.Protocol.Bounds.{hex}
use gaze_lens.Server.Auth.{Principal, Resource, Authority}
use gaze_lens.Server.Auth.Consistent.{
  IsShapedPrincipal, OtherPrincipals, IsShapedResource, OtherResources, IsConsistent,
}
use gaze_lens.Server.History.{Identity, well_shaped}
use gaze_lens.Server.History.Preserve.{AreShaped}
use gaze_lens.Server.History.Active.{OtherIds}
use gaze_lens.Server.Startup.{
  Fingerprints, principal_identity, resource_identity, insert, sort_by_id, identities,
}

module _ (P : Identity → Type 0) where
  All-insert : (v : Identity) (xs : List Identity) → P v → All P xs → All P (insert v xs)
  unfolding insert
  All-insert v [] p h = (p, tt)
  All-insert v (w ∷ xs) p (q, h) = elim (Bool-cases (text_ltb w.id v.id)) [
    | inl less ↦ rw less (q, All-insert v xs p h)
    | inr not_less ↦ rw not_less (p, (q, h))
  ]

  All-sort_by_id : (xs : List Identity) → All P xs → All P (sort_by_id xs)
  unfolding sort_by_id
  All-sort_by_id [] h = tt
  All-sort_by_id (v ∷ xs) (p, h) = All-insert v (sort_by_id xs) p (All-sort_by_id xs h)

Pairs-insert :
    (v : Identity) (xs : List Identity)
    → All (OtherIds v) xs
    → Pairs OtherIds xs
    → Pairs OtherIds (insert v xs)
unfolding insert
Pairs-insert v [] a h = (tt, tt)
Pairs-insert v (w ∷ xs) (b, a) (q, h) = elim (Bool-cases (text_ltb w.id v.id)) [
  | inl less ↦ rw less (All-insert (OtherIds w) v xs (λ e. b (sym e)) q, Pairs-insert v xs a h)
  | inr not_less ↦ rw not_less ((b, a), (q, h))
]

Pairs-sort_by_id : (xs : List Identity) → Pairs OtherIds xs → Pairs OtherIds (sort_by_id xs)
unfolding sort_by_id
Pairs-sort_by_id [] h = tt
Pairs-sort_by_id (v ∷ xs) (a, h) =
    Pairs-insert v (sort_by_id xs) (All-sort_by_id (OtherIds v) xs a) (Pairs-sort_by_id xs h)

-- Every fingerprint is a digest in hex.
pub record AreDigests (f : Fingerprints) : Type 0 where
  pub of_principal : (p : Principal) (t : Text) → f.of_principal p ≡ ok t → hex t 64 ≡ true
  pub of_resource : (r : Resource) (t : Text) → f.of_resource r ≡ ok t → hex t 64 ≡ true

module _ (f : Fingerprints) (a : Authority) (digests : AreDigests f) (c : IsConsistent a) where
  principal_shaped :
      (p : Principal) (v : Identity)
      → principal_identity f p ≡ ok v
      → IsShapedPrincipal p
      → well_shaped v ≡ true
  principal_shaped p v e s = elim (Result-cases (f.of_principal p)) [
    | inl (_, bad) ↦ absurd (ground arith)
    | inr (t, good) ↦ ground (arith, digests.of_principal p t good, s.0, s.1)
  ]

  resource_shaped :
      (r : Resource) (v : Identity)
      → resource_identity f r ≡ ok v
      → IsShapedResource a.principals r
      → well_shaped v ≡ true
  resource_shaped r v e s = elim (Result-cases (f.of_resource r)) [
    | inl (_, bad) ↦ absurd (ground arith)
    | inr (t, good) ↦ ground (arith, digests.of_resource r t good, s.1, s.2)
  ]

  principals_other :
      (p q : Principal) (v w : Identity)
      → principal_identity f p ≡ ok v
      → principal_identity f q ≡ ok w
      → OtherPrincipals p q
      → OtherIds v w
  principals_other p q v w e g o same = o.0 (sym (principal_id p v e) ∙ same ∙ principal_id q w g)
    where
      principal_id : (x : Principal) (u : Identity) → principal_identity f x ≡ ok u → u.id ≡ x.id
      principal_id x u h = ground arith

  principal_id : (p : Principal) (v : Identity) → principal_identity f p ≡ ok v → v.id ≡ p.id
  principal_id p v h = ground arith

  resource_id : (r : Resource) (v : Identity) → resource_identity f r ≡ ok v → v.id ≡ r.id
  resource_id r v h = ground arith

  resources_other :
      (q r : Resource) (v w : Identity)
      → resource_identity f q ≡ ok v
      → resource_identity f r ≡ ok w
      → OtherResources q r
      → OtherIds v w
  resources_other q r v w e g o same = o.0 (sym (resource_id q v e) ∙ same ∙ resource_id r w g)

  -- No identity of a principal shares its id with one of a resource.
  across :
      (ps rs : List Identity)
      → collect (principal_identity f) a.principals ≡ ok ps
      → collect (resource_identity f) a.resources ≡ ok rs
      → All (λ v. All (OtherIds v) rs) ps
  across ps rs e g =
      let by_resource : All (λ w. All (λ p. p.id ≢ w.id) a.principals) rs =
        All-collect (resource_identity f) (IsShapedResource a.principals)
          (λ w. All (λ p. p.id ≢ w.id) a.principals) (λ r w h s. rw (resource_id r w h) s.3)
          a.resources rs g c.resources in
      let by_principal : All (λ p. All (λ w. p.id ≢ w.id) rs) a.principals =
        All-comm (λ (w : Identity) (p : Principal). p.id ≢ w.id) rs a.principals by_resource in
      All-collect (principal_identity f) (λ p. All (λ w. p.id ≢ w.id) rs) (λ v. All (OtherIds v) rs)
        (λ p v h s. rw (principal_id p v h) s) a.principals ps e by_principal

  -- The identities of a consistent authority are well shaped, and no two share an id.
  pub identities_distinct :
      (vs : List Identity) → identities f a ≡ ok vs → AreShaped vs × Pairs OtherIds vs
  unfolding identities
  identities_distinct vs h = elim (Result-cases (collect (principal_identity f) a.principals)) [
    | inl (_, bad) ↦ absurd (ground arith)
    | inr (ps, e) ↦ elim (Result-cases (collect (resource_identity f) a.resources)) [
      | inl (_, bad) ↦ absurd (ground arith)
      | inr (rs, g) ↦
          let is : vs ≡ sort_by_id (ps ++ rs) = ground arith in
          rw is (
            All-sort_by_id (λ v. well_shaped v ≡ true) (ps ++ rs)
                (All-append (λ v. well_shaped v ≡ true) ps rs
                  (All-collect (principal_identity f) IsShapedPrincipal (λ v. well_shaped v ≡ true)
                    principal_shaped a.principals ps e c.principals)
                  (All-collect (resource_identity f) (IsShapedResource a.principals)
                    (λ v. well_shaped v ≡ true) resource_shaped a.resources rs g c.resources)),
            Pairs-sort_by_id (ps ++ rs) (
                Pairs-append OtherIds ps rs
                  (Pairs-collect (principal_identity f) OtherPrincipals OtherIds principals_other
                    a.principals ps e c.principals_apart)
                  (Pairs-collect (resource_identity f) OtherResources OtherIds resources_other
                    a.resources rs g c.resources_apart)
                  (across ps rs e g)),
          )
    ]
  ]
