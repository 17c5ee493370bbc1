-- ===== src/Sessions/Registry/Registrations.antt =====
-- Registrations on a session of several profiles, src/session/mod.rs, and what they leave.
use mathlib.Core.Path.{subst}
use gaze_lens.Prelude.{
  Bool, ◌&&◌, ◌==◌, Text-eq, Text-discrete, if◌then◌else◌, Text, List, [], ◌∷◌, Option, none, some,
  ok, err, ◌>>=◌, ◌>>◌, ◌≡◌, refl, sym, ap,
}
use gaze_lens.Sessions.Values.{Checked}
use gaze_lens.Sessions.Rows.{OutputCaps}
use gaze_lens.Sessions.Registry.{
  SourceClass, is_class, ColumnActionPolicy, put, PipelineMode, ColumnActionMode, Session,
  new_for_multi_profile, register_source_for_profile, add_pipeline, add_policy, register_pipeline,
  register_column_action_policy, register_profile_production,
}

module _ (Pipeline Source : Type 0) where
  pub data Registration : Type 0 where
    pipeline : (name : Text) (pipeline : Pipeline) → Registration
    columns : (name : Text) (policy : ColumnActionPolicy) → Registration
    source : (class : SourceClass) (name : Text) (source : Source) → Registration
    production : (name : Text) (production : Bool) → Registration

  -- A refused registration leaves the session as it is.
  abbrev pub or_same :
      Session Pipeline Source → Checked (Session Pipeline Source) → Session Pipeline Source
  or_same s (ok t) = t
  or_same s (err e) = s

  unfoldable pub register : Registration → Session Pipeline Source → Session Pipeline Source
  unfolding register_pipeline register_column_action_policy register_source_for_profile
      register_profile_production
  register (pipeline name p) s = or_same s (register_pipeline Pipeline Source name p s)
  register (columns name policy) s =
      or_same s (register_column_action_policy Pipeline Source name policy s)
  register (source class name src) s = register_source_for_profile Pipeline Source class name src s
  register (production name b) s = or_same s (register_profile_production Pipeline Source name b s)

  -- A new session after registrations, the last one first.
  unfoldable pub after : OutputCaps → List Registration → Session Pipeline Source
  unfolding register new_for_multi_profile
  after caps [] = new_for_multi_profile Pipeline Source caps
  after caps (r ∷ rs) = register r (after caps rs)

  -- The last registration of each kind under a name.
  unfoldable pub latest_pipeline : List Registration → Text → Option Pipeline
  unfolding Text-discrete
  latest_pipeline [] n = none
  latest_pipeline (pipeline name p ∷ rs) n =
      let earlier = latest_pipeline rs n in if n == name then some p else earlier
  latest_pipeline (columns name policy ∷ rs) n = latest_pipeline rs n
  latest_pipeline (source class name src ∷ rs) n = latest_pipeline rs n
  latest_pipeline (production name b ∷ rs) n = latest_pipeline rs n

  unfoldable pub latest_columns : List Registration → Text → Option ColumnActionPolicy
  unfolding Text-discrete
  latest_columns [] n = none
  latest_columns (pipeline name p ∷ rs) n = latest_columns rs n
  latest_columns (columns name policy ∷ rs) n =
      let earlier = latest_columns rs n in if n == name then some policy else earlier
  latest_columns (source class name src ∷ rs) n = latest_columns rs n
  latest_columns (production name b ∷ rs) n = latest_columns rs n

  unfoldable pub latest_source : List Registration → SourceClass → Text → Option Source
  unfolding Text-discrete
  latest_source [] c n = none
  latest_source (pipeline name p ∷ rs) c n = latest_source rs c n
  latest_source (columns name policy ∷ rs) c n = latest_source rs c n
  latest_source (source class name src ∷ rs) c n =
      let earlier = latest_source rs c n in
      if is_class c class && n == name then some src else earlier
  latest_source (production name b ∷ rs) c n = latest_source rs c n

  -- What the registrations leave in the session.
  pub record Holds (caps : OutputCaps) (rs : List Registration) (s : Session Pipeline Source)
      : Type 0 where
    pub pipelines : s.pipeline_mode ≡ PipelineMode.multi_profile (latest_pipeline rs)
    pub policies : s.column_action_mode ≡ ColumnActionMode.multi_profile (latest_columns rs)
    pub sources : s.sources ≡ latest_source rs
    pub legacy : s.legacy_sources ≡ λ name. none
    pub capped : s.caps ≡ caps

  add_pipeline_is :
      (name : Text) (p : Pipeline) (mode : PipelineMode Pipeline Source)
      (m : Text → Option Pipeline)
      → mode ≡ PipelineMode.multi_profile m
      → add_pipeline Pipeline Source name p mode ≡ ok (PipelineMode.multi_profile (put name p m))
  unfolding add_pipeline
  add_pipeline_is name p mode m e = rw e refl

  add_policy_is :
      (name : Text) (p : ColumnActionPolicy) (mode : ColumnActionMode Pipeline Source)
      (m : Text → Option ColumnActionPolicy)
      → mode ≡ ColumnActionMode.multi_profile m
      → add_policy Pipeline Source name p mode ≡ ok (ColumnActionMode.multi_profile (put name p m))
  unfolding add_policy
  add_policy_is name p mode m e = rw e refl

  Holds-or_same :
      (caps : OutputCaps) (rs : List Registration) (m : Checked (Unit {0}))
      (s t : Session Pipeline Source)
      → Holds caps rs s
      → Holds caps rs t
      → Holds caps rs (or_same s (m >> ok t))
  Holds-or_same caps rs (ok u) s t hs ht = ht
  Holds-or_same caps rs (err e) s t hs ht = hs

  Holds-register :
      (caps : OutputCaps) (rs : List Registration) (r : Registration) (s : Session Pipeline Source)
      → Holds caps rs s
      → Holds caps (r ∷ rs) (register r s)
  unfolding register latest_pipeline latest_columns latest_source
  Holds-register caps rs (pipeline name p) s h =
      subst (Holds caps (pipeline name p ∷ rs))
        (sym (
          ap (λ m. or_same s (m >>= λ mode. ok (record s { pipeline_mode = mode })))
            (add_pipeline_is name p s.pipeline_mode (latest_pipeline rs) h.pipelines)))
        (record {
          pipelines = refl;
          policies = h.policies;
          sources = h.sources;
          legacy = h.legacy;
          capped = h.capped;
        })
  Holds-register caps rs (columns name policy) s h =
      subst (Holds caps (columns name policy ∷ rs))
        (sym (
          ap (λ m. or_same s (m >>= λ mode. ok (record s { column_action_mode = mode })))
            (add_policy_is name policy s.column_action_mode (latest_columns rs) h.policies)))
        (record {
          pipelines = h.pipelines;
          policies = refl;
          sources = h.sources;
          legacy = h.legacy;
          capped = h.capped;
        })
  Holds-register caps rs (source class name src) s h = record {
    pipelines = h.pipelines;
    policies = h.policies;
    sources =
        ap
          (λ (f : SourceClass → Text → Option Source). λ (c : SourceClass) (n : Text).
            if is_class c class && n == name then some src else f c n)
          h.sources;
    legacy = h.legacy;
    capped = h.capped;
  }
  Holds-register caps rs (production name b) s h =
      Holds-or_same caps (production name b ∷ rs) _ s _
        (record {
          pipelines = h.pipelines;
          policies = h.policies;
          sources = h.sources;
          legacy = h.legacy;
          capped = h.capped;
        })
        (record {
          pipelines = h.pipelines;
          policies = h.policies;
          sources = h.sources;
          legacy = h.legacy;
          capped = h.capped;
        })

  pub Holds-after : (caps : OutputCaps) (rs : List Registration) → Holds caps rs (after caps rs)
  unfolding after latest_pipeline latest_columns latest_source
  Holds-after caps [] = record {
    pipelines = refl;
    policies = refl;
    sources = refl;
    legacy = refl;
    capped = refl;
  }
  Holds-after caps (r ∷ rs) = Holds-register caps rs r (after caps rs) (Holds-after caps rs)
