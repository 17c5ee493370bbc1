-- ===== src/Sessions/Values/Strings.antt =====
-- The strings of JSON values, for the functions of src/value.rs and src/session/mod.rs that change
-- each of them.
use gaze_lens.Prelude.{Text, Gives, gives, Gives-bind}
use gaze_lens.Sessions.Values.{
  Checked, Value, null, bool, number, string, array, object, Elements, no_elements, element, Fields,
  no_fields, field, each_string, each_element, each_field,
}

-- A predicate on each string of a JSON value, at any depth.
module _ (P : Text → Type 0) where
  unfoldable mutual
    pub Strings : Value → Type 0
    Strings (string t) = P t
    Strings (array es) = ElementStrings es
    Strings (object fs) = FieldStrings fs
    Strings null = Unit
    Strings (bool b) = Unit
    Strings (number n) = Unit

    pub ElementStrings : Elements → Type 0
    ElementStrings no_elements = Unit
    ElementStrings (element v es) = Strings v × ElementStrings es

    pub FieldStrings : Fields → Type 0
    FieldStrings no_fields = Unit
    FieldStrings (field k v fs) = Strings v × FieldStrings fs

  module _ (f : Text → Checked Text) (makes : (t : Text) → Gives P (f t)) where
    mutual
      unfolding each_string Strings

      pub Strings-each_string : (v : Value) → Gives Strings (each_string f v)
      Strings-each_string null = gives tt
      Strings-each_string (bool b) = gives tt
      Strings-each_string (number n) = gives tt
      Strings-each_string (string t) = Gives-bind (makes t) λ u p. gives p
      Strings-each_string (array es) = Gives-bind (elements_Strings es) λ xs p. gives p
      Strings-each_string (object fs) = Gives-bind (fields_Strings fs) λ xs p. gives p

      elements_Strings : (es : Elements) → Gives ElementStrings (each_element f es)
      elements_Strings no_elements = gives tt
      elements_Strings (element v es) =
          Gives-bind (Strings-each_string v)
            λ w p. Gives-bind (elements_Strings es) λ xs q. gives (p, q)

      fields_Strings : (fs : Fields) → Gives FieldStrings (each_field f fs)
      fields_Strings no_fields = gives tt
      fields_Strings (field k v fs) =
          Gives-bind (Strings-each_string v)
            λ w p. Gives-bind (fields_Strings fs) λ xs q. gives (p, q)
