-- ===== src/Profiles/Merge.antt =====
-- Where each merged profile comes from, and what its file may authorize.
use gaze_lens.Prelude.{
  ◌≤◌, ◌≡◌, sym, ap, ◌∙◌, ◌⊎◌, true, List, [], ◌∷◌, ◌++◌, none, some, Text, In, Option-cases, arith,
  inl, inr,
}
use gaze_lens.Retention.{off, rank}
use gaze_lens.Retention.Order.{cap_with_min}
use gaze_lens.Profiles.{
  Profile, last_named, names_of, merge_one, merge_named, merge_names, merge_profiles,
  downgrade_user_only_profile,
}
use gaze_lens.Profiles.Names.{name-last_named}

-- The entries of the two files from which a profile was merged; a name that stands twice in a file
-- means its last entry.
pub data Origin (users projects : List Profile) (m : Profile) : Type 0 where
  both :
      (u p : Profile)
      → last_named m.name users ≡ some u
      → last_named m.name projects ≡ some p
      → m ≡ merge_one u p
      → Origin users projects m
  user_only :
      (u : Profile)
      → last_named m.name users ≡ some u
      → last_named m.name projects ≡ none
      → m ≡ record u { auto_purge = off }
      → Origin users projects m
  project_only :
      last_named m.name users ≡ none → last_named m.name projects ≡ some m → Origin users projects m

In-split : (xs ys : List Profile) (m : Profile) → In m (xs ++ ys) → In m xs ⊎ In m ys
In-split [] ys m k = inr k
In-split (x ∷ xs) ys m (inl e) = inl (inl e)
In-split (x ∷ xs) ys m (inr k) = elim (In-split xs ys m k) [
  | inl here ↦ inl (inr here)
  | inr there ↦ inr there
]

module _ (users projects : List Profile) where
  Origin-merge_named :
      (n : Text) (m : Profile)
      → In m (merge_named (last_named n users) (last_named n projects)).0
      → Origin users projects m
  unfolding downgrade_user_only_profile merge_one
  Origin-merge_named n m k = elim (Option-cases (last_named n users)) [
    | inl no_user ↦ elim (Option-cases (last_named n projects)) [
      | inl no_project ↦ absurd (rw (no_user, no_project) at k)
      | inr (p, e) ↦
          let same : m ≡ p = ground arith in
          let name : m.name ≡ n =
            ap (λ (q : Profile). q.name) same ∙ name-last_named n projects p e in
          project_only (rw name no_user)
            (ap (λ x. last_named x projects) name ∙ e ∙ ap some (sym same))
    ]
    | inr (u, f) ↦ elim (Option-cases (last_named n projects)) [
      | inl no_project ↦
          let same : m ≡ record u { auto_purge = off } = ground arith in
          let name : m.name ≡ n = ap (λ (q : Profile). q.name) same ∙ name-last_named n users u f in
          user_only u (rw name f) (rw name no_project) same
      | inr (p, e) ↦
          let same : m ≡ merge_one u p = ground arith in
          let name : m.name ≡ n =
            ap (λ (q : Profile). q.name) same ∙ name-last_named n projects p e in
          both u p (rw name f) (rw name e) same
    ]
  ]

  Origin-merge_names :
      (ns : List Text) (m : Profile)
      → In m (merge_names users projects ns).0
      → Origin users projects m
  unfolding merge_names
  Origin-merge_names [] m k = absurd k
  Origin-merge_names (n ∷ ns) m k =
      elim (In-split (merge_named (last_named n users) (last_named n projects)).0
        (merge_names users projects ns).0 m k) [
          | inl here ↦ Origin-merge_named n m here
          | inr later ↦ Origin-merge_names ns m later
        ]

  pub Origin-merge_profiles :
      (m : Profile) → In m (merge_profiles users projects).0 → Origin users projects m
  unfolding merge_profiles
  Origin-merge_profiles m k = Origin-merge_names (names_of (users ++ projects)) m k

  -- What the two files together authorize for a merged profile.
  abbrev pub IsAuthorized : Profile → Type 0
  IsAuthorized m =
      ((m.auto_purge ≡ off)
        ⊎ ((p : Profile) × (last_named m.name projects ≡ some p)
            × (rank m.auto_purge ≤ rank p.auto_purge)))
      × ((u : Profile)
          → last_named m.name users ≡ some u
          → (rank m.auto_purge ≤ rank u.auto_purge) × (u.production ≡ true → m.production ≡ true))
      × ((p : Profile)
          → last_named m.name projects ≡ some p
          → p.production ≡ true
          → m.production ≡ true)

  -- A merged profile purges only as far as the project file's profile of its name allows, and not at
  -- all where the project file has none; it never purges further than the user file's profile of its
  -- name asks; and it is a production profile if the user file's or the project file's profile of
  -- its name is one.
  pub merge_authorizes : (m : Profile) → In m (merge_profiles users projects).0 → IsAuthorized m
  unfolding merge_one
  merge_authorizes m k = elim (Origin-merge_profiles m k) [
    | both u p f e same ↦ (
      inr (p, e, ground (arith, cap_with_min p.auto_purge u.auto_purge)),
      λ u' g. (ground (arith, cap_with_min p.auto_purge u.auto_purge), ground arith),
      λ p' g h. ground arith,
    )
    | user_only u f e same ↦
        (inl (ground arith), λ u' g. (ground arith, ground arith), λ p' g h. absurd (ground arith))
    | project_only f e ↦
        (inr (m, e, ground arith), λ u' g. absurd (ground arith), λ p' g h. ground arith)
  ]
