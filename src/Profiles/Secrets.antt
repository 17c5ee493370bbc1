-- ===== src/Profiles/Secrets.antt =====
-- Loading refuses exactly the profiles whose password could not be resolved.
use gaze_lens.Prelude.{
  ◌≡◌, refl, ◌↔◌, List, [], ◌∷◌, some, All, Option-cases, Result-cases, arith, ok, inl, inr,
}
use gaze_lens.Profiles.{
  Profile, SecretSpec, env, Database, database_of, check_secrets, validate_post_merge,
  secret_source,
}

-- A profile with a database names one secret, and not two.
abbrev pub HasOneSecret : Profile → Type 0
HasOneSecret p =
    (d : Database) → database_of p.source ≡ some d → (s : SecretSpec) × (secret_source p ≡ ok s)

check_secrets_iff : (p : Profile) → (check_secrets p ≡ ok tt) ↔ HasOneSecret p
unfolding secret_source
check_secrets_iff p = elim (Option-cases (database_of p.source)) [
  | inl e ↦ ((λ h d f. absurd (ground arith)), λ h. rw (e, check_secrets))
  | inr (d, e) ↦ elim (Option-cases d.password_env) [
    | inl f ↦ elim (Option-cases d.secret) [
      | inl g ↦ ((λ h. absurd (ground arith)), λ h. let (s, k) = h d e in absurd (ground arith))
      | inr (s, g) ↦ ((λ h d' f'. (s, ground arith)), λ h. ground arith)
    ]
    | inr (v, f) ↦ elim (Option-cases d.secret) [
      | inl g ↦ ((λ h d' f'. (env v, ground arith)), λ h. ground arith)
      | inr (s, g) ↦
          ((λ h. absurd (ground arith)), λ h. let (t, k) = h d e in absurd (ground arith))
    ]
  ]
]

-- validate_post_merge accepts a list of profiles exactly when each profile with a database names one secret, so that its password is never refused for naming none or two.
pub validate_post_merge_iff :
    (ps : List Profile) → (validate_post_merge ps ≡ ok tt) ↔ All HasOneSecret ps
unfolding validate_post_merge
validate_post_merge_iff [] = ((λ h. tt), λ h. refl)
validate_post_merge_iff (p ∷ ps) = elim (Result-cases (check_secrets p)) [
  | inl (e, bad) ↦ (
    (λ h. absurd (ground arith)),
    λ h. let k = (check_secrets_iff p).1 h.0 in absurd (ground arith),
  )
  | inr (t, good) ↦
      let ih = validate_post_merge_iff ps in
      (
        (λ h. ((check_secrets_iff p).0 good, ih.0 (ground arith))),
        λ h. let k = ih.1 h.1 in ground arith,
      )
]
