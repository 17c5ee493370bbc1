-- ===== src/Protocol/Args/Bounded.antt =====
-- The arguments that Args::validate accepts.
use gaze_lens.Prelude.{
  ◌≤◌, ◌<◌, ◌≡◌, refl, ℕ_eq, ltb, Option, none, some, length, ok, ◌>>◌, Option-cases, inl, inr,
  arith,
}
use gaze_lens.Protocol.Bounds.{
  require, cap, configured_id, text, scalar_bytes, keyword_window_lines, regex_bytes,
  inventory_records, max_packages, max_php,
}
use gaze_lens.Protocol.Checks.{Accepts, cap_iff, both_iff, IsIdentifier, identifier_iff}
use gaze_lens.Protocol.Query.{if_some}
use gaze_lens.Protocol.Query.Valid.{IsQuery, OrNone, if_some_iff, positive_iff, IsQuery-validate}
use gaze_lens.Protocol.Args.{
  View, host, packages, php, Regex, Inspect, Args, query, schema, list_tables, log_tail, log_window,
  log_regex, inspect, readiness, is_none, offset_of, check_view, check_regex, check_inspect,
  validate,
}

abbrev pub IsPage : View → Inspect → Type 0
IsPage host i = (i.limit ≡ 1) × (i.offset ≡ none)
IsPage php i = (i.offset ≡ none) × (i.limit ≤ max_php)
IsPage packages i = (i.limit ≤ max_packages) × (offset_of i ≤ inventory_records)

none_iff : {A : Type 0} (o : Option A) → Accepts (require (is_none o)) (o ≡ none)
none_iff none = ((λ h. refl), λ h. refl)
none_iff (some a) = ((λ h. absurd (ground arith)), λ h. absurd (ground arith))

view_iff : (v : View) (i : Inspect) → Accepts (check_view v i) (IsPage v i)
unfolding check_view
view_iff host i = elim (Option-cases i.offset) [
  | inl f ↦ ((λ h. (ground arith, f)), λ (e, _). ground arith)
  | inr (n, f) ↦ ((λ h. absurd (ground arith)), λ (e, g). absurd (ground arith))
]
view_iff php i =
    both_iff (require (is_none i.offset)) (cap i.limit max_php) (none_iff i.offset)
      (cap_iff i.limit max_php)
view_iff packages i =
    both_iff (cap i.limit max_packages) (cap (offset_of i) inventory_records)
      (cap_iff i.limit max_packages) (cap_iff (offset_of i) inventory_records)

abbrev pub IsRegex : Regex → Type 0
IsRegex r =
    (0 < r.limit)
    × ((r.limit ≤ 1000)
        × ((length r.pattern ≤ regex_bytes) × OrNone (λ l. length l ≤ scalar_bytes) r.level))

regex_iff : (r : Regex) → Accepts (check_regex r) (IsRegex r)
unfolding check_regex
regex_iff r =
    both_iff (require (ltb 0 r.limit))
      (cap r.limit 1000 >> (cap (length r.pattern) regex_bytes >> if_some text r.level))
      (positive_iff r.limit)
      (both_iff (cap r.limit 1000) (cap (length r.pattern) regex_bytes >> if_some text r.level)
        (cap_iff r.limit 1000)
        (both_iff (cap (length r.pattern) regex_bytes) (if_some text r.level)
          (cap_iff (length r.pattern) regex_bytes)
          (if_some_iff text (λ l. cap_iff (length l) scalar_bytes) r.level)))

inspect_iff :
    (i : Inspect)
    → Accepts
        (check_inspect i)
        ((configured_id i.collector ≡ ok tt) × ((0 < i.limit) × IsPage i.view i))
unfolding check_inspect
inspect_iff i =
    both_iff (configured_id i.collector) (require (ltb 0 i.limit) >> check_view i.view i)
      ((λ h. h), λ h. h)
      (both_iff (require (ltb 0 i.limit)) (check_view i.view i) (positive_iff i.limit)
        (view_iff i.view i))

-- The arguments within the protocol's ceilings.
abbrev pub IsBounded : Args → Type 0
IsBounded (query q) = IsQuery q
IsBounded (schema table) = IsIdentifier table
IsBounded (log_tail lines) = (0 < lines) × (lines ≤ keyword_window_lines)
IsBounded (log_regex r) = IsRegex r
IsBounded (inspect i) = (configured_id i.collector ≡ ok tt) × ((0 < i.limit) × IsPage i.view i)
IsBounded _ = Unit

-- Args::validate accepts exactly the arguments within the ceilings of their operation.
pub IsBounded-validate : (a : Args) → Accepts (validate a) (IsBounded a)
unfolding validate
IsBounded-validate (query q) = IsQuery-validate q
IsBounded-validate (schema table) = identifier_iff table
IsBounded-validate list_tables = ((λ h. tt), λ h. refl)
IsBounded-validate (log_tail lines) =
    both_iff (require (ltb 0 lines)) (cap lines keyword_window_lines) (positive_iff lines)
      (cap_iff lines keyword_window_lines)
IsBounded-validate log_window = ((λ h. tt), λ h. refl)
IsBounded-validate (log_regex r) = regex_iff r
IsBounded-validate (inspect i) = inspect_iff i
IsBounded-validate readiness = ((λ h. tt), λ h. refl)
