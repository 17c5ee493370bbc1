-- ===== src/Logs/Cache.antt =====
-- The cache of log windows: WindowCache of src/source/log/local_log.rs and KeywordIndexCache of
-- src/mcp/tools/log_grep.rs. The clock's readings and what the fetch brings are given; the lock
-- is not modelled.
pub mod Fresh
use gaze_lens.Prelude.{
  ℕ, ◌-◌, Bool, true, false, not, leb, ◌==◌, Eq, if◌then◌else◌, Option, none, some, Result, ok, err,
}

pub record Cached (V : Type 0) : Type 0 where
  pub minted_at : ℕ
  pub output : V

-- `HashMap`, as a function that answers none for a missing key.
abbrev pub Entries : Type 0 → Type 0 → Type 0
Entries K V = K → Option (Cached V)

-- What a request meets: `now` before and `then` after the fetch, and the fetch's outcome.
pub record Fetch (E V : Type 0) : Type 0 where
  pub now : ℕ
  pub later : ℕ
  pub outcome : Result E V

-- An answer, whether it was cached, and the cache that is left.
pub record Lookup (E K V : Type 0) : Type 0 where
  pub answer : Result E V
  pub cache_hit : Bool
  pub left : Entries K V

module _ {K V : Type 0} (ttl : ℕ) where
  unfoldable pub fresh : Entries K V → K → ℕ → Option V
  fresh entries key now = elim (entries key) [
    | none ↦ none
    | some entry ↦ if leb (now - entry.minted_at) ttl then some entry.output else none
  ]

module _ {K V : Type 0} (same : K → K → Bool) where
  unfoldable pub store : Entries K V → K → V → ℕ → Entries K V
  store entries key output minted_at asked =
      if same asked key
      then some (record { minted_at = minted_at; output = output })
      else entries asked

module _ {E K V : Type 0} (same : K → K → Bool) where
  -- `let output = fetch().await?; self.store(..)`
  unfoldable pub fetch_and_store : Entries K V → K → Fetch E V → Lookup E K V
  unfolding store
  fetch_and_store entries key f = elim f.outcome [
    | err e ↦ record { answer = err e; cache_hit = false; left = entries }
    | ok output ↦ record {
      answer = ok output;
      cache_hit = false;
      left = store same entries key output f.later;
    }
  ]

module _ {E K V : Type 0} (same : K → K → Bool) (ttl : ℕ) where
  unfoldable pub get_or_fetch : Entries K V → K → Fetch E V → Lookup E K V
  unfolding fresh fetch_and_store
  get_or_fetch entries key f = elim (fresh ttl entries key f.now) [
    | some output ↦ record { answer = ok output; cache_hit = true; left = entries }
    | none ↦ fetch_and_store same entries key f
  ]

  unfoldable pub get_or_fetch_refresh : Entries K V → K → Bool → Fetch E V → Lookup E K V
  unfolding get_or_fetch
  get_or_fetch_refresh entries key refresh f =
      if not refresh then get_or_fetch entries key f else fetch_and_store same entries key f
