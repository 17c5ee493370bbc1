-- ===== src/Sessions/Values.antt =====
-- Values of sources and of JSON, and what redaction does to each, src/value.rs and
-- src/session/mod.rs. A float stands as the text that it is written as, and an error without its
-- detail.
pub mod Strings
use gaze_lens.Prelude.{
  ℕ, ◌-◌, Bool, true, false, not, ◌&&◌, ◌||◌, ◌==◌, ℕ_eq, ℕ_discrete, if◌then◌else◌, Text, codes,
  List, [], ◌∷◌, ◌++◌, map, Option, none, some, any, all, is_empty, is_digit, is_lower, Result, ok,
  err, ok_or, ◌>>=◌, ◌>>◌,
}
use gaze_lens.Protocol.Values.{ℤ, pos}
use gaze_lens.Policy.{
  Action, tokenize, redact, format_preserve, generalize, preserve, PiiClass, email, name, location,
  organization, custom,
}

pub data LensError : Type 0 where
  redaction_failed : LensError
  convert_error : LensError
  internal : LensError
  profile : LensError
  profile_mismatch : LensError
  profile_unknown : LensError
  source_error : LensError
  operation_timeout : LensError

abbrev pub Checked : Type 0 → Type 0
Checked A = Result LensError A

pub data Number : Type 0 where
  int : ℤ → Number
  float : Text → Number

-- serde_json::Value
mutual
  pub data Value : Type 0 where
    null : Value
    bool : Bool → Value
    number : Number → Value
    string : Text → Value
    array : Elements → Value
    object : Fields → Value

  pub data Elements : Type 0 where
    no_elements : Elements
    element : Value → Elements → Elements

  pub data Fields : Type 0 where
    no_fields : Fields
    field : Text → Value → Fields → Fields

pub data LensValue : Type 0 where
  null : LensValue
  bool : Bool → LensValue
  i64 : ℤ → LensValue
  u64 : ℕ → LensValue
  f64 : Text → LensValue
  decimal : (value : Text) (precision scale : ℕ) → LensValue
  string : Text → LensValue
  bytes : (base64 : Text) (len : ℕ) → LensValue
  date_time : Text → LensValue
  uuid : Text → LensValue
  json : Value → LensValue

-- gaze::Value; an array, an object and what a later version adds are all `other`.
pub data GazeValue : Type 0 where
  null : GazeValue
  bool : Bool → GazeValue
  i64 : ℤ → GazeValue
  string : Text → GazeValue
  other : GazeValue

-- gaze::RawDocument and gaze::CleanDocument.
pub data Document : Type 0 where
  structured : List (Text × GazeValue) → Document
  text : Text → Document
  unsupported : Document

-- What other code answers: the pipeline and the session of gaze, which give one text the same
-- token in every place; `str::trim`; and of serde_json the sizes of cells and rows and the
-- values of typed cells.
pub record Library : Type 0 where
  pub redact : Document → Option Document
  pub tokenize : PiiClass → Text → Option Text
  pub fake : PiiClass → Text → Option Text
  pub trim : Text → Text
  pub cell_size : Value → ℕ
  pub row_size : List (Text × Value) → ℕ
  pub to_value : LensValue → Option Value

-- A change of each string of a JSON value, at any depth; the keys of objects stay.
module _ (f : Text → Checked Text) where
  unfoldable mutual
    pub each_string : Value → Checked Value
    each_string null = ok null
    each_string (bool b) = ok (bool b)
    each_string (number n) = ok (number n)
    each_string (string t) = f t >>= λ u. ok (string u)
    each_string (array es) = each_element es >>= λ xs. ok (array xs)
    each_string (object fs) = each_field fs >>= λ xs. ok (object xs)

    pub each_element : Elements → Checked Elements
    each_element no_elements = ok no_elements
    each_element (element v es) = each_string v >>= λ w. each_element es >>= λ xs. ok (element w xs)

    pub each_field : Fields → Checked Fields
    each_field no_fields = ok no_fields
    each_field (field k v fs) = each_string v >>= λ w. each_field fs >>= λ xs. ok (field k w xs)

-- `split_once(['e', 'E'])`
unfoldable pub split_exponent : Text → Text × Option Text
unfolding ℕ_discrete
split_exponent [] = ([], none)
split_exponent (b ∷ rest) =
    let later = split_exponent rest in
    if b == b'e' || b == b'E' then ([], some rest) else (b ∷ later.0, later.1)

unfoldable pub strip_sign : Text → Text
unfolding ℕ_discrete
strip_sign [] = []
strip_sign (b ∷ rest) = if b == b'+' || b == b'-' then rest else b ∷ rest

-- The loop of validate_decimal_mantissa.
unfoldable pub mantissa_loop : Bool → Bool → Text → Checked (Unit {0})
unfolding ℕ_discrete
mantissa_loop seen_digit seen_dot [] = if seen_digit then ok tt else err convert_error
mantissa_loop seen_digit seen_dot (b ∷ rest) =
    let digit = mantissa_loop true seen_dot rest in
    let dot = mantissa_loop seen_digit true rest in
    if is_digit b then digit else if b == b'.' && not seen_dot then dot else err convert_error

unfoldable pub check_exponent : Option Text → Checked (Unit {0})
unfolding strip_sign
check_exponent none = ok tt
check_exponent (some e) =
    let digits = strip_sign e in
    if not (is_empty digits) && all is_digit digits then ok tt else err convert_error

abbrev pub upper : ℕ → ℕ
upper b = if is_lower b then b - 32 else b

unfoldable pub generalize_column_value : PiiClass → Text
generalize_column_value email = codes "[EMAIL]"
generalize_column_value name = codes "[NAME]"
generalize_column_value location = codes "[LOCATION]"
generalize_column_value organization = codes "[ORGANIZATION]"
generalize_column_value (custom label) = b'[' ∷ (map upper label ++ b']' ∷ [])

unfoldable pub gaze_value_to_json : GazeValue → Checked Value
gaze_value_to_json null = ok null
gaze_value_to_json (bool b) = ok (bool b)
gaze_value_to_json (i64 n) = ok (number (int n))
gaze_value_to_json (string t) = ok (string t)
gaze_value_to_json other = err redaction_failed

-- Of the arms of redact_rows the one that leaves a value to the redaction of the whole row.
abbrev pub is_text : LensValue → Bool
is_text (string t) = true
is_text (json (string t)) = true
is_text _ = false

-- What the pipeline answers to a text is a text, and to fields fields.
abbrev pub from_text : Option Document → Checked Text
from_text (some (text u)) = ok u
from_text _ = err redaction_failed

abbrev pub from_structured : Option Document → Checked (List (Text × GazeValue))
from_structured (some (structured fields)) = ok fields
from_structured _ = err redaction_failed

module _ (lib : Library) where
  unfoldable pub validate_decimal : Text → Checked (Unit {0})
  unfolding split_exponent strip_sign mantissa_loop check_exponent
  validate_decimal raw = do
    let value = lib.trim raw
    if is_empty value then err convert_error else ok tt
    mantissa_loop false false (strip_sign (split_exponent value).0)
    check_exponent (split_exponent value).1

  unfoldable pub lower_for_redaction : LensValue → Checked (Option GazeValue)
  unfolding validate_decimal
  lower_for_redaction (i64 n) = ok (some (i64 n))
  lower_for_redaction (decimal value precision scale) = do validate_decimal value; ok none
  lower_for_redaction (string t) = ok (some (string t))
  lower_for_redaction (json (string t)) = ok (some (string t))
  lower_for_redaction _ = ok none

  abbrev pub redact_text : Text → Checked Text
  redact_text t = from_text (lib.redact (text t))

  unfoldable pub redact_with : LensValue → Checked LensValue
  unfolding each_string lower_for_redaction
  redact_with (string t) = redact_text t >>= λ u. ok (string u)
  redact_with (json v) = each_string redact_text v >>= λ w. ok (json w)
  redact_with value = do lowered ← lower_for_redaction value; ok value

  unfoldable pub apply_action_to_text : Action × PiiClass → Text → Checked Text
  unfolding generalize_column_value
  apply_action_to_text (tokenize, class) t = ok_or redaction_failed (lib.tokenize class t)
  apply_action_to_text (redact, class) t = ok (codes "[REDACTED]")
  apply_action_to_text (format_preserve, class) t = ok_or redaction_failed (lib.fake class t)
  apply_action_to_text (generalize, class) t = ok (generalize_column_value class)
  apply_action_to_text (preserve, class) t = ok t

  unfoldable pub apply_column_action : Action × PiiClass → LensValue → Checked LensValue
  unfolding apply_action_to_text each_string lower_for_redaction
  apply_column_action action (string t) = apply_action_to_text action t >>= λ u. ok (string u)
  apply_column_action action (json v) =
      each_string (apply_action_to_text action) v >>= λ w. ok (json w)
  apply_column_action action value = do lowered ← lower_for_redaction value; ok value

  unfoldable pub lens_value_to_json : LensValue → Checked Value
  lens_value_to_json (bytes base64 len) = ok (
      object (
        field (codes "base64") (string base64) (
          field (codes "len") (number (int (pos len)))
            (field (codes "type") (string (codes "bytes")) no_fields))))
  lens_value_to_json value = ok_or convert_error (lib.to_value value)
