-- ===== src/Protocol/Results/Paging.antt =====
-- Pages of packages that follow each other, PackagePage::validate of
-- crates/gaze-lens-protocol/src/wire.rs.
use gaze_lens.Prelude.{
  ℕ, suc, ◌+◌, ◌≤◌, ◌<◌, ◌≡◌, refl, ap, ◌∙◌, inl, inr, Bool, true, false, ◌&&◌, ◌==◌, ℕ_eq,
  ℕ_discrete, ltb, leb, if◌then◌else◌, List, [], ◌∷◌, Option, none, some, length, is_empty, ok,
  Bool-cases, arith,
}
use gaze_lens.Protocol.Bounds.{require}
use gaze_lens.Protocol.Args.{Inspect, is_none, offset_of, packages}
use gaze_lens.Protocol.Results.Types.{Reason, PackagePage, View-eq}
use gaze_lens.Protocol.Results.Checks.{check_page, check_last_page, check_some_page, is_next}

-- A request, the page that answers it, the packages that came with it, and why it was cut.
pub record Answered : Type 0 where
  pub request : Inspect
  pub page : PackagePage
  pub returned : ℕ
  pub truncated : List Reason

-- Nothing after a page that names no next, and the rest from the next one that it names.
abbrev pub Followed : Option ℕ → Type 0 → (ℕ → Type 0) → Type 0
Followed none Nothing Rest = Nothing
Followed (some next) Nothing Rest = Rest next

-- Pages accepted one after the other, each asked for where the one before ends, up to one that
-- names no next.
abbrev pub IsPaged : ℕ → ℕ → List Answered → Type 0
IsPaged offset total [] = ⊥
IsPaged offset total (a ∷ rest) =
    (check_page a.page a.request a.returned a.truncated ≡ ok tt)
    × ((offset_of a.request ≡ offset)
        × ((a.page.total ≡ total)
            × Followed a.page.next_offset (rest ≡ []) (λ next. IsPaged next total rest)))

abbrev pub sum_returned : List Answered → ℕ
sum_returned [] = 0
sum_returned (a ∷ rest) = a.returned + sum_returned rest

required : (b : Bool) → require b ≡ ok tt → b ≡ true
required true h = refl
required false h = absurd (ground arith)

-- Where a page ends: nothing is left at its offset, or it has some and says where the next is.
data IsEnd (p : PackagePage) (returned : ℕ) : Type 0 where
  past_end : p.total ≤ p.offset → returned ≡ 0 → p.next_offset ≡ none → IsEnd p returned
  at_end : 0 < returned → p.offset + returned ≡ p.total → p.next_offset ≡ none → IsEnd p returned
  before_end :
      0 < returned
      → p.offset + returned < p.total
      → p.next_offset ≡ some (p.offset + returned)
      → IsEnd p returned

none_is : (o : Option ℕ) → is_none o ≡ true → o ≡ none
none_is none h = refl
none_is (some n) h = absurd (ground arith)

IsEnd-check_last_page :
    (p : PackagePage) (returned : ℕ) (truncated : List Reason)
    → p.total ≤ p.offset
    → check_last_page p returned truncated ≡ ok tt
    → IsEnd p returned
unfolding check_last_page
IsEnd-check_last_page p returned truncated below h =
    let all_hold = required (returned == 0 && is_none p.next_offset && is_empty truncated) h in
    past_end below (ground arith) (none_is p.next_offset (ground arith))

next_is :
    (o : Option ℕ) (b : Bool) (end : ℕ)
    → is_next o (if b then some end else none) ≡ true
    → o ≡ (if b then some end else none)
unfolding ℕ_discrete
next_is none true end h = absurd (ground arith)
next_is none false end h = refl
next_is (some a) true end h = ground arith
next_is (some a) false end h = absurd (ground arith)

IsEnd-check_some_page :
    (p : PackagePage) (returned : ℕ) (truncated : List Reason)
    → p.offset < p.total
    → check_some_page p returned (p.offset + returned) truncated ≡ ok tt
    → IsEnd p returned
unfolding check_some_page
IsEnd-check_some_page p returned truncated below h =
    let end = p.offset + returned in
    let some_left : (ltb 0 returned && leb end p.total) ≡ true = ground arith in
    let next : is_next p.next_offset (if ltb end p.total then some end else none) ≡ true =
      ground arith in
    let names = next_is p.next_offset (ltb end p.total) end next in
    elim (Bool-cases (ltb end p.total)) [
      | inl more ↦
          before_end (ground arith) (ground arith)
            (names ∙ ap (λ b. if b then some end else none) more)
      | inr all ↦
          at_end (ground arith) (ground arith) (names ∙ ap (λ b. if b then some end else none) all)
    ]

IsEnd-check_page :
    (p : PackagePage) (request : Inspect) (returned : ℕ) (truncated : List Reason)
    → check_page p request returned truncated ≡ ok tt
    → (p.offset ≡ offset_of request) × IsEnd p returned
unfolding check_page
IsEnd-check_page p request returned truncated h =
    let asked : (request.view == packages
          && p.offset == offset_of request
          && p.returned == returned)
        ≡ true =
      ground arith in
    let same : p.offset ≡ offset_of request = ground arith in
    elim (Bool-cases (leb p.total p.offset)) [
      | inl past ↦
          let last : check_last_page p returned truncated ≡ ok tt = ground arith in
          (same, IsEnd-check_last_page p returned truncated (ground arith) last)
      | inr left ↦
          let some_page : check_some_page p returned (p.offset + returned) truncated ≡ ok tt =
            ground arith in
          (same, IsEnd-check_some_page p returned truncated (ground arith) some_page)
    ]

followed_none : (N : Type 0) (R : ℕ → Type 0) (o : Option ℕ) → o ≡ none → Followed o N R → N
followed_none N R none e h = h
followed_none N R (some n) e h = absurd (ground arith)

followed_some :
    (N : Type 0) (R : ℕ → Type 0) (o : Option ℕ) (n : ℕ) → o ≡ some n → Followed o N R → R n
followed_some N R none n e h = absurd (ground arith)
followed_some N R (some m) n e h = let same : m ≡ n = ground arith in rw⁻¹ same h

-- What the pages from an offset on bring, and how many they are.
abbrev IsWhole : ℕ → ℕ → List Answered → Type 0
IsWhole offset total pages =
    (offset + sum_returned pages ≡ total) × (offset + length pages ≤ suc total)

page_then :
    (total : ℕ) (a : Answered) (rest : List Answered)
    → a.page.total ≡ total
    → a.page.offset ≤ total
    → IsEnd a.page a.returned
    → Followed a.page.next_offset (rest ≡ []) (λ next. IsPaged next total rest)
    → ((next : ℕ) → IsPaged next total rest → next ≤ total → IsWhole next total rest)
    → IsWhole a.page.offset total (a ∷ rest)
page_then total a rest of below (past_end past zero_here last) follows later =
    let done =
      followed_none (rest ≡ []) (λ n. IsPaged n total rest) a.page.next_offset last follows in
    rw done (omega (arith, past, zero_here, of, below), omega (arith, below))
page_then total a rest of below (at_end some_here all last) follows later =
    let done =
      followed_none (rest ≡ []) (λ n. IsPaged n total rest) a.page.next_offset last follows in
    rw done (omega (arith, all, of), omega (arith, below))
page_then total a rest of below (before_end some_here more next) follows later =
    let on =
      followed_some (rest ≡ []) (λ n. IsPaged n total rest) a.page.next_offset
        (a.page.offset + a.returned) next follows in
    let whole = later (a.page.offset + a.returned) on (omega (arith, of, more)) in
    (omega (arith, whole.0), omega (arith, whole.1, some_here))

-- A client that asks for packages from an offset on, and for the next page where a page names
-- one, gets no less and no more than those left up to the total, in at most one page more than
-- there are packages left, if each page is accepted and the total stays the same.
pub paged_all :
    (offset total : ℕ) (pages : List Answered)
    → IsPaged offset total pages
    → offset ≤ total
    → (offset + sum_returned pages ≡ total) × (offset + length pages ≤ suc total)
paged_all offset total [] h below = absurd h
paged_all offset total (a ∷ rest) (checked, (from, (of_total, follows))) below =
    let ends = IsEnd-check_page a.page a.request a.returned a.truncated checked in
    let at = ends.0 ∙ from in
    let whole =
      page_then total a rest of_total (omega (arith, at, below)) ends.1 follows
        (λ next on le. paged_all next total rest on le) in
    (omega (arith, at, whole.0), omega (arith, at, whole.1))
