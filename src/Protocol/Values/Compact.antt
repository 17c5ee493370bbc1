-- ===== src/Protocol/Values/Compact.antt =====
-- Compacting JSON twice, crates/gaze-lens-protocol/src/value.rs.
use gaze_lens.Prelude.{
  ◌≡◌, refl, ap, Bool, true, false, ◌||◌, ◌==◌, ℕ_eq, Text, [], ◌∷◌, Bool-cases, inl, inr,
}
use gaze_lens.Protocol.Values.{compact, compact_json}

compact_again :
    (quoted escaped : Bool) (s : Text)
    → compact quoted escaped (compact quoted escaped s) ≡ compact quoted escaped s
unfolding compact
compact_again true true [] = refl
compact_again true false [] = refl
compact_again false escaped [] = refl
compact_again true true (c ∷ rest) = ap (λ t. c ∷ t) (compact_again true false rest)
compact_again true false (c ∷ rest) = elim (Bool-cases (c == 92)) [
  | inl escape ↦ rw escape (ap (λ t. c ∷ t) (compact_again true true rest))
  | inr plain ↦ elim (Bool-cases (c == 34)) [
    | inl quote ↦ rw (plain, quote) (ap (λ t. c ∷ t) (compact_again false false rest))
    | inr other ↦ rw (plain, other) (ap (λ t. c ∷ t) (compact_again true false rest))
  ]
]
compact_again false escaped (c ∷ rest) =
    elim (Bool-cases (c == 32 || c == 9 || c == 13 || c == 10)) [
      | inl space ↦ rw space (compact_again false escaped rest)
      | inr kept ↦ elim (Bool-cases (c == 34)) [
        | inl quote ↦ rw (kept, quote) (rw kept (ap (λ t. c ∷ t) (compact_again true escaped rest)))
        | inr other ↦
            rw (kept, other) (rw kept (ap (λ t. c ∷ t) (compact_again false escaped rest)))
      ]
    ]

-- Compacting what was compacted changes nothing, whatever the text.
pub compact_json-twice : (s : Text) → compact_json (compact_json s) ≡ compact_json s
compact_json-twice s = compact_again false false s
