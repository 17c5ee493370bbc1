-- ===== src/Logs/Cache/Fresh.antt =====
-- How old an answer of the cache of src/source/log/local_log.rs can be.
use gaze_lens.Prelude.{
  ℕ, ◌-◌, ◌≤◌, ◌≡◌, refl, ◌∙◌, ◌⊎◌, inl, inr, Bool, true, false, leb, List, [], ◌∷◌, none, some, ok,
  err, In, All, Option-cases, Bool-cases, ok_is, Result-cases, arith, if◌then◌else◌,
}
use gaze_lens.Logs.Cache.{
  Cached, Entries, Fetch, Lookup, fresh, store, fetch_and_store, get_or_fetch, get_or_fetch_refresh,
}

pub record Request (E K V : Type 0) : Type 0 where
  pub key : K
  pub refresh : Bool
  pub fetch : Fetch E V

-- What was fetched, for which key and when.
pub record Fetched (K V : Type 0) : Type 0 where
  pub of_key : K
  pub at_time : ℕ
  pub brought : V

-- A request, what had been fetched before it, and its lookup.
pub record Served (E K V : Type 0) : Type 0 where
  pub request : Request E K V
  pub before : List (Fetched K V)
  pub lookup : Lookup E K V

module _ {K V : Type 0} where
  abbrev pub IsBacked : Entries K V → List (Fetched K V) → Type 0
  IsBacked entries log =
      (k : K) (c : Cached V)
      → entries k ≡ some c
      → In (record { of_key = k; at_time = c.minted_at; brought = c.output }) log

-- An answer out of the cache: asked without a refresh, fetched for its key, and not too long ago.
pub record FromCache {E K V : Type 0} (ttl : ℕ) (s : Served E K V) (v : V) : Type 0 where
  pub hit : s.lookup.cache_hit ≡ true
  pub not_refreshed : s.request.refresh ≡ false
  pub at : ℕ
  pub was_fetched : In (record { of_key = s.request.key; at_time = at; brought = v }) s.before
  pub in_time : (s.request.fetch.now - at) ≤ ttl

module _ {E K V : Type 0} (same : K → K → Bool) (ttl : ℕ) where
  abbrev pub answer_to : Entries K V → Request E K V → Lookup E K V
  answer_to entries r = get_or_fetch_refresh same ttl entries r.key r.refresh r.fetch

  abbrev pub fetched_by : Request E K V → V → Fetched K V
  fetched_by r v = record { of_key = r.key; at_time = r.fetch.later; brought = v }

  -- A request that brings a window from the source is written down.
  unfoldable pub log_of : Lookup E K V → Request E K V → List (Fetched K V) → List (Fetched K V)
  log_of l r log = elim l.answer [
    | err e ↦ log
    | ok v ↦ if l.cache_hit then log else fetched_by r v ∷ log
  ]

  -- An answer is what this request fetched, or what an earlier one fetched for the key, not
  -- longer than the time to live ago.
  abbrev pub IsRecent : Served E K V → Type 0
  IsRecent s =
      (v : V)
      → s.lookup.answer ≡ ok v
      → ((s.lookup.cache_hit ≡ false) × (s.request.fetch.outcome ≡ ok v)) ⊎ FromCache ttl s v

  -- What one request keeps and promises.
  abbrev pub IsFair : Entries K V → List (Fetched K V) → Request E K V → Lookup E K V → Type 0
  IsFair entries log r l =
      IsBacked l.left (log_of l r log) × IsRecent (record { request = r; before = log; lookup = l })

  -- The requests served one after the other.
  unfoldable pub serve :
      Entries K V → List (Fetched K V) → List (Request E K V) → List (Served E K V)
  unfolding log_of get_or_fetch_refresh
  serve entries log [] = []
  serve entries log (r ∷ rest) =
      let l = answer_to entries r in
      record { request = r; before = log; lookup = l } ∷ serve l.left (log_of l r log) rest

  module _ (same_is : (a b : K) → same a b ≡ true → a ≡ b) where
    stored-IsBacked :
        (entries : Entries K V) (log : List (Fetched K V)) (r : Request E K V) (v : V)
        → IsBacked entries log
        → IsBacked (store same entries r.key v r.fetch.later) (fetched_by r v ∷ log)
    unfolding store
    stored-IsBacked entries log r v h k c e = elim (Bool-cases (same k r.key)) [
      | inl is ↦ inl (ground (arith, same_is k r.key is))
      | inr other ↦ inr (h k c (ground arith))
    ]

    fetch-err :
        (entries : Entries K V) (k : K) (f : Fetch E V) (e : E)
        → f.outcome ≡ err e
        → fetch_and_store same entries k f
          ≡ record { answer = err e; cache_hit = false; left = entries }
    unfolding fetch_and_store
    fetch-err entries k f e bad = rw bad refl

    fetch-ok :
        (entries : Entries K V) (k : K) (f : Fetch E V) (v : V)
        → f.outcome ≡ ok v
        → fetch_and_store same entries k f
          ≡ record { answer = ok v; cache_hit = false; left = store same entries k v f.later }
    unfolding fetch_and_store
    fetch-ok entries k f v good = rw good refl

    fetched-IsFair :
        (entries : Entries K V) (log : List (Fetched K V)) (r : Request E K V)
        → IsBacked entries log
        → IsFair entries log r (fetch_and_store same entries r.key r.fetch)
    unfolding log_of
    fetched-IsFair entries log r h = elim (Result-cases r.fetch.outcome) [
      | inl (e, bad) ↦
          rw (fetch-err entries r.key r.fetch e bad) (h, λ v fine. absurd (ground arith))
      | inr (w, good) ↦
          rw (fetch-ok entries r.key r.fetch w good)
            (stored-IsBacked entries log r w h, λ v fine. inl (refl, good ∙ fine))
    ]

    hit :
        (entries : Entries K V) (k : K) (f : Fetch E V) (c : Cached V)
        → entries k ≡ some c
        → leb (f.now - c.minted_at) ttl ≡ true
        → get_or_fetch same ttl entries k f
          ≡ record { answer = ok c.output; cache_hit = true; left = entries }
    unfolding get_or_fetch fresh
    hit entries k f c there young = rw (there, young, get_or_fetch, fresh) refl

    missed :
        (entries : Entries K V) (k : K) (f : Fetch E V)
        → fresh ttl entries k f.now ≡ none
        → get_or_fetch same ttl entries k f ≡ fetch_and_store same entries k f
    unfolding get_or_fetch
    missed entries k f nothing = rw (nothing, get_or_fetch) refl

    asked-IsFair :
        (entries : Entries K V) (log : List (Fetched K V)) (r : Request E K V)
        → IsBacked entries log
        → r.refresh ≡ false
        → IsFair entries log r (get_or_fetch same ttl entries r.key r.fetch)
    unfolding fresh log_of
    asked-IsFair entries log r h plain = elim (Option-cases (entries r.key)) [
      | inl missing ↦
          rw (missed entries r.key r.fetch (rw (missing, fresh) refl))
            (fetched-IsFair entries log r h)
      | inr (c, there) ↦ elim (Bool-cases (leb (r.fetch.now - c.minted_at) ttl)) [
        | inl young ↦ rw (hit entries r.key r.fetch c there young) (
          h,
          λ v fine. inr (record {
            hit = refl;
            not_refreshed = plain;
            at = c.minted_at;
            was_fetched = rw⁻¹ (ok_is c.output v fine) (h r.key c there);
            in_time = ground arith;
          }),
        )
        | inr old ↦
            rw (missed entries r.key r.fetch (rw (there, old, fresh) refl))
              (fetched-IsFair entries log r h)
      ]
    ]

    refresh_or_not :
        (entries : Entries K V) (k : K) (refresh : Bool) (f : Fetch E V) (b : Bool)
        → refresh ≡ b
        → get_or_fetch_refresh same ttl entries k refresh f
          ≡ (if b then fetch_and_store same entries k f else get_or_fetch same ttl entries k f)
    unfolding get_or_fetch_refresh
    refresh_or_not entries k refresh f true e = rw e refl
    refresh_or_not entries k refresh f false e = rw e refl

    answer-IsFair :
        (entries : Entries K V) (log : List (Fetched K V)) (r : Request E K V)
        → IsBacked entries log
        → IsFair entries log r (answer_to entries r)
    answer-IsFair entries log r h = elim (Bool-cases r.refresh) [
      | inl again ↦
          rw (refresh_or_not entries r.key r.refresh r.fetch true again)
            (fetched-IsFair entries log r h)
      | inr plain ↦
          rw (refresh_or_not entries r.key r.refresh r.fetch false plain)
            (asked-IsFair entries log r h plain)
    ]

    serve-IsRecent :
        (entries : Entries K V) (log : List (Fetched K V)) (rs : List (Request E K V))
        → IsBacked entries log
        → All IsRecent (serve entries log rs)
    unfolding serve
    serve-IsRecent entries log [] h = tt
    serve-IsRecent entries log (r ∷ rs) h =
        let fair = answer-IsFair entries log r h in
        let l = answer_to entries r in (fair.1, serve-IsRecent l.left (log_of l r log) rs fair.0)

    -- However many requests are served, from an empty cache on: every answer is what that request
    -- fetched, or, when it asks for no refresh, what an earlier request fetched for the same key
    -- and stored at most the time to live ago.
    pub IsRecent-serve : (rs : List (Request E K V)) → All IsRecent (serve (λ k. none) [] rs)
    IsRecent-serve rs = serve-IsRecent (λ k. none) [] rs (λ k c e. absurd (ground arith))
