-- ===== src/Sessions/Rows/Caps.antt =====
-- The caps of redact_rows, src/session/mod.rs.
use gaze_lens.Prelude.{
  ℕ, zero, suc, ◌+◌, ◌≤◌, ◌≡◌, ◌≢◌, ◌⊎◌, inl, inr, refl, sym, ap, ap₂, ◌∙◌, ltb, if◌then◌else◌,
  Text, List, [], ◌∷◌, ◌++◌, map, length, Option, All, ok, Bool-cases, arith, Gives, gives,
  Gives-of, Gives-ok, Gives-if, Gives-bind, Gives-mono,
}
use gaze_lens.Logs.Output.{TruncatedAt, push_truncation}
use gaze_lens.Policy.{Action, PiiClass}
use gaze_lens.Sessions.Values.{Value, LensValue, GazeValue, Library}
use gaze_lens.Sessions.Rows.{
  OutputCaps, marker, get, take, to_cell, insert_capped_cell, redact_field, redact_fields,
  redact_document, cells, redact_row, rows_loop, redact_rows,
}

length-take : {A : Type 0} (n : ℕ) (xs : List A) → length (take n xs) ≤ n
unfolding take
length-take zero xs = omega arith
length-take (suc n) [] = omega arith
length-take (suc n) (x ∷ xs) = omega (arith, length-take n xs)

take_all : {A : Type 0} (n : ℕ) (xs : List A) → length xs ≤ n → take n xs ≡ xs
unfolding take
take_all zero [] h = refl
take_all zero (x ∷ xs) h = absurd (omega (arith, h))
take_all (suc n) [] h = refl
take_all (suc n) (x ∷ xs) h = ap (λ t. x ∷ t) (take_all n xs (omega (arith, h)))

push_flags : (r : TruncatedAt) (ts : List TruncatedAt) → push_truncation r ts ≢ []
unfolding push_truncation
push_flags r [] h = ground arith
push_flags r (t ∷ ts) h = ground arith

not_flagged : (n m : ℕ) → (if ltb n m then TruncatedAt.rows ∷ [] else []) ≡ [] → m ≤ n
not_flagged n m h = ground arith

abbrev pub keys_of : {A : Type 0} → List (Text × A) → List Text
keys_of row = map (λ (key, v). key) row

module _ (lib : Library) (caps : OutputCaps) (actions : Text → Option (Action × PiiClass)) where
  abbrev pub Fits : Text × Value → Type 0
  Fits (key, cell) = (lib.cell_size cell ≤ caps.cell_bytes) ⊎ (cell ≡ marker)

  abbrev pub total : List (List (Text × Value)) → ℕ
  total [] = 0
  total (out ∷ outs) = lib.row_size out + total outs

  capped-Fits :
      (key : Text) (cell : Value) (ts : List TruncatedAt)
      → Fits (key, (insert_capped_cell lib caps actions cell ts).0)
        × ((insert_capped_cell lib caps actions cell ts).1 ≡ [] → ts ≡ [])
  unfolding insert_capped_cell
  capped-Fits key cell ts = elim (Bool-cases (ltb caps.cell_bytes (lib.cell_size cell))) [
    | inl large ↦ rw large (inr refl, λ h. absurd (push_flags TruncatedAt.cell_bytes ts h))
    | inr small ↦ rw small (inl (ground arith), λ h. h)
  ]

  redact_fields_keys :
      (row : List (Text × LensValue))
      → Gives (λ (kept, raw). keys_of kept ≡ keys_of row) (redact_fields lib caps actions row)
  unfolding redact_fields
  redact_fields_keys [] = gives refl
  redact_fields_keys ((key, value) ∷ rest) =
      Gives-bind {P = λ _. Unit {0}}
        (Gives-of (redact_field lib caps actions key value) (λ a h. tt))
        λ (kept, lowered) u.
          Gives-bind (redact_fields_keys rest) λ (row, raw) same. gives (ap (λ ks. key ∷ ks) same)

  cells-Fits :
      (fields : List (Text × GazeValue)) (row : List (Text × LensValue)) (ts : List TruncatedAt)
      → Gives
          (λ (out, us). (keys_of out ≡ keys_of row) × All Fits out × (us ≡ [] → ts ≡ []))
          (cells lib caps actions fields row ts)
  unfolding cells
  cells-Fits fields [] ts = gives (refl, tt, λ h. h)
  cells-Fits fields ((key, value) ∷ rest) ts =
      Gives-bind {P = λ _. Unit {0}}
        (Gives-of (to_cell lib caps actions (get key fields) value) (λ a h. tt))
        λ cell u.
          let (fits, before) = capped-Fits key cell ts in
          Gives-bind (cells-Fits fields rest (insert_capped_cell lib caps actions cell ts).1)
            λ (out, us) (same, all_fit, earlier).
              gives (ap (λ ks. key ∷ ks) same, (fits, all_fit), λ h. before (earlier h))

  redact_row-Fits :
      (row : List (Text × LensValue)) (ts : List TruncatedAt)
      → Gives
          (λ (out, us). (keys_of out ≡ keys_of row) × All Fits out × (us ≡ [] → ts ≡ []))
          (redact_row lib caps actions row ts)
  unfolding redact_row
  redact_row-Fits row ts = Gives-bind (redact_fields_keys row) λ (kept, raw) same.
      Gives-bind {P = λ _. Unit {0}} (Gives-of (redact_document lib caps actions raw) (λ a h. tt))
        λ fields u.
          Gives-mono (cells lib caps actions fields kept ts)
            (λ (out, us) (keys, fit, earlier). (keys ∙ same, fit, earlier))
            (cells-Fits fields kept ts)

  -- The rows that stand in front of `from`, with their keys, within the bytes that are left.
  pub record Keeps (all : List (List (Text × LensValue))) (spent : ℕ)
      (outs : List (List (Text × Value))) : Type 0 where
    pub left : List (List (Text × LensValue))
    pub in_order : map keys_of all ≡ map keys_of outs ++ map keys_of left
    pub fit : All (All Fits) outs
    pub small : spent + total outs ≤ caps.bytes
    pub few : length outs ≤ length all

  loop-Keeps :
      (all : List (List (Text × LensValue))) (spent : ℕ) (ts : List TruncatedAt)
      → spent ≤ caps.bytes
      → Gives
          (λ (outs, us). Keeps all spent outs × (us ≡ [] → (ts ≡ []) × (length outs ≡ length all)))
          (rows_loop lib caps actions all spent ts)
  unfolding rows_loop
  loop-Keeps [] spent ts h = gives (
    record { left = []; in_order = refl; fit = tt; small = omega (arith, h); few = omega arith },
    λ e. (e, refl),
  )
  loop-Keeps (row ∷ rest) spent ts h =
      Gives-bind (redact_row-Fits row ts) λ (out, us) (same, fit, earlier).
        Gives-if (ltb caps.bytes (spent + lib.row_size out))
          (λ full. gives (
            record {
              left = row ∷ rest;
              in_order = refl;
              fit = tt;
              small = omega (arith, h);
              few = omega arith;
            },
            λ e. absurd (push_flags TruncatedAt.bytes us e),
          ))
          (λ room.
            Gives-bind (loop-Keeps rest (spent + lib.row_size out) us (ground arith))
              λ (outs, vs) (k, whole). gives (
                record {
                  left = k.left;
                  in_order = ap₂ (λ x xs. x ∷ xs) (sym same) k.in_order;
                  fit = (fit, k.fit);
                  small = omega (arith, k.small);
                  few = omega (arith, k.few);
                },
                λ e. (earlier (whole e).0, ap suc (whole e).1),
              ))

  -- If redact_rows answers, it answers a part of the source's rows from the first on, each with the
  -- keys of its row: at most the capped number, of at most the capped bytes together, and each cell
  -- is within the bytes of a cell or the marker of a cell that was cut. With nothing flagged it
  -- answers as many rows as the source.
  pub rows_capped :
      (all : List (List (Text × LensValue))) (outs : List (List (Text × Value)))
      (ts : List TruncatedAt)
      → redact_rows lib caps actions all ≡ ok (outs, ts)
      → Keeps (take caps.rows all) 0 outs
        × (length outs ≤ caps.rows)
        × (ts ≡ [] → length outs ≡ length all)
  unfolding redact_rows
  rows_capped all outs ts h =
      let (k, whole) =
        Gives-ok (outs, ts)
          (loop-Keeps (take caps.rows all) 0
            (if ltb caps.rows (length all) then TruncatedAt.rows ∷ [] else []) (omega arith))
          h in
      (
        k,
        omega (arith, k.few, length-take caps.rows all),
        λ e.
            (whole e).1
            ∙ ap length (take_all caps.rows all (not_flagged caps.rows (length all) (whole e).0)),
      )
