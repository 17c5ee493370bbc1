-- ===== src/Protocol/Results/Logs.antt =====
-- The log results that are accepted, `ResultBody::validate_for` of
-- crates/gaze-lens-protocol/src/wire.rs.
use gaze_lens.Prelude.{
  ℕ, ◌+◌, ◌≤◌, ◌≡◌, true, false, ◌&&◌, ◌==◌, ℕ_eq, ℕ_discrete, leb, Text, List, [], ◌∷◌, length,
  any, All, ok, ◌>>◌, Result-cases, seq_ok, inl, inr, arith,
}
use gaze_lens.Protocol.Errors.{Checked}
use gaze_lens.Protocol.Bounds.{
  cap, scan_bytes, scan_lines, scalar_bytes, result_bytes, keyword_window_lines,
}
use gaze_lens.Protocol.Args.{Args, Regex}
use gaze_lens.Protocol.Results.Types.{Reason, Window}
use gaze_lens.Protocol.Results.Checks.{line_sizes, check_log_window}
use gaze_lens.Protocol.Results.{
  ResultBody, check_window_result, check_matches_result, check_body, validate_for,
}

abbrev pub IsLine : Text → Type 0
unfolding ℕ_discrete
IsLine line = (length line ≤ scalar_bytes) × (any (λ b. b == 10) line ≡ false)

-- The bytes of the lines, each with its newline.
abbrev pub joined : List Text → ℕ
joined [] = 0
joined (line ∷ rest) = length line + 1 + joined rest

abbrev pub IsBoundedLog : ℕ → List Text → Window → Type 0
IsBoundedLog limit shown window =
    (length shown ≤ limit)
    × ((length shown ≤ window.admitted_lines)
        × ((window.admitted_lines ≤ window.scanned_lines)
            × ((window.scanned_lines ≤ scan_lines)
                × ((joined shown ≤ window.scanned_bytes)
                    × ((window.scanned_bytes ≤ scan_bytes) × All IsLine shown)))))

line_sizes-joined :
    (shown : List Text) (size total : ℕ)
    → line_sizes shown size ≡ ok total
    → (total ≡ size + joined shown) × All IsLine shown
unfolding line_sizes
line_sizes-joined [] size total h = (ground arith, tt)
line_sizes-joined (line ∷ rest) size total h =
    let fits : length line ≤ scalar_bytes = ground arith in
    let one : any (λ b. b == 10) line ≡ false = ground arith in
    let on : line_sizes rest (size + (length line + 1)) ≡ ok total = ground arith in
    let later = line_sizes-joined rest (size + (length line + 1)) total on in
    (omega (arith, later.0), ((fits, one), later.1))

window_bounded :
    (limit : ℕ) (shown : List Text) (window : Window) (truncated : List Reason)
    → length shown ≤ limit
    → length shown ≤ window.admitted_lines
    → check_log_window window shown truncated ≡ ok tt
    → IsBoundedLog limit shown window
unfolding check_log_window
window_bounded limit shown window truncated few admitted h =
    elim (Result-cases (line_sizes shown 0)) [
      | inl (e, bad) ↦ absurd (ground arith)
      | inr (size, good) ↦
          let sized = line_sizes-joined shown 0 size good in
          let in_bytes : window.scanned_bytes ≤ scan_bytes = ground arith in
          let in_lines : window.scanned_lines ≤ scan_lines = ground arith in
          let ordered : (leb window.admitted_lines window.scanned_lines
                && leb window.scanned_lines window.scanned_bytes)
              ≡ true =
            ground arith in
          let covered : leb size window.scanned_bytes ≡ true = ground (arith, good) in
          (
            few,
            (admitted, (ground arith, (in_lines, (ground (arith, sized.0), (in_bytes, sized.1))))),
          )
    ]

-- The result that a log request is answered with.
abbrev pub IsLogResult : {V : Type 0} → ResultBody V → Args → Type 0
IsLogResult (ResultBody.log_window shown window truncated) (Args.log_tail n) =
    IsBoundedLog n shown window
IsLogResult (ResultBody.log_window shown window truncated) Args.log_window =
    IsBoundedLog keyword_window_lines shown window
IsLogResult (ResultBody.log_matches shown window matched_lines truncated) (Args.log_regex r) =
    IsBoundedLog r.limit shown window
    × ((length shown ≤ matched_lines) × (matched_lines ≤ window.admitted_lines))
IsLogResult (ResultBody.log_window shown window truncated) _ = ⊥
IsLogResult (ResultBody.log_matches shown window matched_lines truncated) _ = ⊥
IsLogResult _ _ = Unit

window_accepted :
    (limit : ℕ) (shown : List Text) (window : Window) (truncated : List Reason)
    → check_window_result limit shown window truncated ≡ ok tt
    → IsBoundedLog limit shown window
unfolding check_window_result
window_accepted limit shown window truncated h =
    let few : length shown ≤ limit = ground arith in
    let counted : (window.admitted_lines == length shown) ≡ true = ground arith in
    let admitted : length shown ≤ window.admitted_lines = ground arith in
    let checked : check_log_window window shown truncated ≡ ok tt = ground arith in
    window_bounded limit shown window truncated few admitted checked

matches_accepted :
    (limit : ℕ) (shown : List Text) (window : Window) (matched : ℕ) (truncated : List Reason)
    → check_matches_result limit shown window matched truncated ≡ ok tt
    → IsBoundedLog limit shown window
      × ((length shown ≤ matched) × (matched ≤ window.admitted_lines))
unfolding check_matches_result
matches_accepted limit shown window matched truncated h =
    let few : length shown ≤ limit = ground arith in
    let counted : (leb (length shown) matched && leb matched window.admitted_lines) ≡ true =
      ground arith in
    let in_count : length shown ≤ matched = ground arith in
    let in_window : matched ≤ window.admitted_lines = ground arith in
    let checked : check_log_window window shown truncated ≡ ok tt = ground arith in
    (
      window_bounded limit shown window truncated few (omega (arith, in_count, in_window)) checked,
      (in_count, in_window),
    )

module _ {V : Type 0} (check_value : V → Checked (Unit {0})) where
  body_accepted :
      (body : ResultBody V) (args : Args)
      → check_body check_value body args ≡ ok tt
      → IsLogResult body args
  unfolding check_body check_window_result check_matches_result
  body_accepted (ResultBody.log_window shown window truncated) (Args.log_tail n) h =
      window_accepted n shown window truncated h
  body_accepted (ResultBody.log_window shown window truncated) Args.log_window h =
      window_accepted keyword_window_lines shown window truncated h
  body_accepted (ResultBody.log_matches shown window matched truncated) (Args.log_regex r) h =
      matches_accepted r.limit shown window matched truncated h
  body_accepted (ResultBody.log_window shown window truncated) (Args.query q) h =
      absurd (ground arith)
  body_accepted (ResultBody.log_window shown window truncated) (Args.schema t) h =
      absurd (ground arith)
  body_accepted (ResultBody.log_window shown window truncated) Args.list_tables h =
      absurd (ground arith)
  body_accepted (ResultBody.log_window shown window truncated) (Args.log_regex r) h =
      absurd (ground arith)
  body_accepted (ResultBody.log_window shown window truncated) (Args.inspect i) h =
      absurd (ground arith)
  body_accepted (ResultBody.log_window shown window truncated) Args.readiness h =
      absurd (ground arith)
  body_accepted (ResultBody.log_matches shown window matched truncated) (Args.query q) h =
      absurd (ground arith)
  body_accepted (ResultBody.log_matches shown window matched truncated) (Args.schema t) h =
      absurd (ground arith)
  body_accepted (ResultBody.log_matches shown window matched truncated) Args.list_tables h =
      absurd (ground arith)
  body_accepted (ResultBody.log_matches shown window matched truncated) (Args.log_tail n) h =
      absurd (ground arith)
  body_accepted (ResultBody.log_matches shown window matched truncated) Args.log_window h =
      absurd (ground arith)
  body_accepted (ResultBody.log_matches shown window matched truncated) (Args.inspect i) h =
      absurd (ground arith)
  body_accepted (ResultBody.log_matches shown window matched truncated) Args.readiness h =
      absurd (ground arith)
  body_accepted (ResultBody.query_rows c f t) args h = tt
  body_accepted (ResultBody.table_schema a c t) args h = tt
  body_accepted (ResultBody.table_list a t) args h = tt
  body_accepted (ResultBody.inspection v c s e f p t) args h = tt
  body_accepted ResultBody.readiness args h = tt

  -- If validate_for accepts a log result, then it answers a request for one of its kind: it has at
  -- most the lines that were asked for, each without a newline and within a scalar's bytes; their
  -- bytes, newlines included, are among those scanned, at most 1 MiB; they are among the lines
  -- admitted, those among the lines scanned, and the matches lie between the lines and those
  -- admitted.
  pub log_accepted :
      (size : ℕ) (body : ResultBody V) (args : Args)
      → validate_for check_value size body args ≡ ok tt
      → IsLogResult body args
  unfolding validate_for
  log_accepted size body args h =
      body_accepted body args
        (seq_ok (cap size result_bytes) (check_body check_value body args) tt
          (seq_ok (gaze_lens.Protocol.Args.validate args)
            (cap size result_bytes >> check_body check_value body args) tt h).1).1
