-- ===== src/Profiles/Names.antt =====
-- The names of the merged profiles.
use gaze_lens.Prelude.{
  ◌≡◌, refl, ap₂, ◌↔◌, ◌⊎◌, List, [], ◌∷◌, ◌++◌, map, none, some, Text, All, Pairs, In,
  Option-cases, arith, inl, inr, Text-eq,
}
use gaze_lens.Sets.{Before, set_insert-sorted, In-set_insert}
use gaze_lens.Profiles.{
  Profile, names_of, last_named, merge_one, merge_names, merge_profiles,
  downgrade_user_only_profile,
}

names_of-sorted : (ps : List Profile) → Pairs Before (names_of ps)
unfolding names_of
names_of-sorted [] = tt
names_of-sorted (p ∷ ps) = set_insert-sorted p.name (names_of ps) (names_of-sorted ps)

abbrev pub names : List Profile → List Text
names = map (λ p. p.name)

In-names_of : (x : Text) (ps : List Profile) → In x (names_of ps) ↔ In x (names ps)
unfolding names_of
In-names_of x [] = ((λ h. h), (λ h. h))
In-names_of x (p ∷ ps) = ground (arith, In-set_insert x p.name (names_of ps), In-names_of x ps)

pub name-last_named :
    (n : Text) (ps : List Profile) (p : Profile) → last_named n ps ≡ some p → p.name ≡ n
unfolding last_named
name-last_named n [] p h = absurd (ground arith)
name-last_named n (q ∷ ps) p h = elim (Option-cases (last_named n ps)) [
  | inl e ↦ ground arith
  | inr (r, e) ↦ ground (arith, name-last_named n ps r e)
]

last_named-none : (n : Text) (ps : List Profile) → last_named n ps ≡ none → ¬ In n (names ps)
unfolding last_named
last_named-none n [] h m = m
last_named-none n (q ∷ ps) h m = elim (Option-cases (last_named n ps)) [
  | inl e ↦ ground (arith, last_named-none n ps e)
  | inr (r, e) ↦ absurd (ground arith)
]

In-names_append :
    (x : Text) (us ps : List Profile) → In x (names (us ++ ps)) → In x (names us) ⊎ In x (names ps)
In-names_append x [] ps m = inr m
In-names_append x (u ∷ us) ps (inl e) = inl (inl e)
In-names_append x (u ∷ us) ps (inr m) = elim (In-names_append x us ps m) [
  | inl k ↦ inl (inr k)
  | inr k ↦ inr k
]

All-self : (P : Text → Type 0) (xs : List Text) → ((x : Text) → In x xs → P x) → All P xs
All-self P [] f = tt
All-self P (x ∷ xs) f = (f x (inl refl), All-self P xs (λ y m. f y (inr m)))

names-merge_names :
    (users projects : List Profile) (ns : List Text)
    → All (λ n. In n (names (users ++ projects))) ns
    → names (merge_names users projects ns).0 ≡ ns
unfolding merge_names merge_one downgrade_user_only_profile
names-merge_names users projects [] h = refl
names-merge_names users projects (n ∷ ns) (m, h) = elim (Option-cases (last_named n users)) [
  | inl no_user ↦ elim (Option-cases (last_named n projects)) [
    | inl no_project ↦ absurd (elim (In-names_append n users projects m) [
      | inl k ↦ last_named-none n users no_user k
      | inr k ↦ last_named-none n projects no_project k
    ])
    | inr (p, e) ↦
        rw (no_user, e)
          (ap₂ (λ x xs. x ∷ xs) (name-last_named n projects p e)
            (names-merge_names users projects ns h))
  ]
  | inr (u, f) ↦ elim (Option-cases (last_named n projects)) [
    | inl no_project ↦
        rw (f, no_project)
          (ap₂ (λ x xs. x ∷ xs) (name-last_named n users u f)
            (names-merge_names users projects ns h))
    | inr (p, e) ↦
        rw (f, e)
          (ap₂ (λ x xs. x ∷ xs) (name-last_named n projects p e)
            (names-merge_names users projects ns h))
  ]
]

-- The merged profiles stand in strictly rising order of their names, so each name stands once, and
-- a name is among them exactly when the user file or the project file has a profile of that name.
pub names-merge_profiles :
    (users projects : List Profile)
    → Pairs Before (names (merge_profiles users projects).0)
      × ((n : Text)
          → In n (names (merge_profiles users projects).0) ↔ In n (names (users ++ projects)))
unfolding merge_profiles
names-merge_profiles users projects =
    let all_of = names_of (users ++ projects) in
    let same : names (merge_names users projects all_of).0 ≡ all_of =
      names-merge_names users projects all_of (
        All-self (λ n. In n (names (users ++ projects))) all_of
          (λ n. (In-names_of n (users ++ projects)).0)) in
    rw same (names_of-sorted (users ++ projects), λ n. In-names_of n (users ++ projects))
