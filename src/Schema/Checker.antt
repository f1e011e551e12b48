-- ===== src/Schema/Checker.antt =====
-- The state of the checker, and the checks that do not call validate.
use Prim.Native.String.{String, ◌++◌ as append}
use text.Mathlib.Text.{◌==◌ as str_eq}
use hyperion_ng_beta.Prelude.{
  ℕ, zero, suc, ◌/◌, ◌%◌, ◌==◌, ℤ, pos, negsuc, ltb_ℤ, Bool, true, false, not, if◌then◌else◌, List,
  [], ◌∷◌, ◌++◌, length, get_or,
}
use hyperion_ng_beta.Schema.Json.{
  Json, null, bool, num, str, arr, obj, Numbers, elements, to_array, to_string, to_bool, to_double,
}

pub record Checker : Type 0 where
  pub ignore_required : Bool
  pub error : Bool
  pub messages : List String
  pub current_path : List String

-- The parts of the path, one after the other.
unfoldable pub concat : List String → String
concat [] = ""
concat (s ∷ ss) = append s (concat ss)

unfoldable pub set_message : String → Checker → Checker
unfolding concat
set_message message c = record c {
  messages = c.messages ++ append (concat c.current_path) (append ": " message) ∷ [];
}

-- `_error = true; setMessage(message);`
unfoldable pub fail : String → Checker → Checker
unfolding set_message
fail message c = set_message message (record c { error = true })

unfoldable pub push_path : String → Checker → Checker
push_path part c = record c { current_path = c.current_path ++ part ∷ [] }

-- `pop_back` of a list.
unfoldable pub drop_last {ℓ} : {A : Type ℓ} → List A → List A
drop_last [] = []
drop_last (x ∷ []) = []
drop_last (x ∷ y ∷ xs) = x ∷ drop_last (y ∷ xs)

unfoldable pub pop_path : Checker → Checker
unfolding drop_last
pop_path c = record c { current_path = drop_last c.current_path }

-- The decimal digits that an output stream writes for an int. A number has no more digits than it
-- counts, so that the first argument does not run out at suc n.
digits : ℕ → ℕ → String
digits zero n = ""
digits (suc fuel) n =
    let rest = digits fuel (n / 10) in
    append (if n / 10 == 0 then "" else rest)
      (get_or ("0" ∷ "1" ∷ "2" ∷ "3" ∷ "4" ∷ "5" ∷ "6" ∷ "7" ∷ "8" ∷ "9" ∷ []) (n % 10) "")

unfoldable pub print_int : ℤ → String
unfolding digits
print_int (pos n) = digits (suc n) n
print_int (negsuc n) = append "-" (digits (suc (suc n)) (suc n))

module _ {D : Type 0} where
  unfoldable pub is_string : Json D → Bool
  is_string (str s) = true
  is_string _ = false

  unfoldable pub is_double : Json D → Bool
  is_double (num x) = true
  is_double _ = false

  unfoldable pub is_bool : Json D → Bool
  is_bool (bool b) = true
  is_bool _ = false

  unfoldable pub is_object : Json D → Bool
  is_object (obj fs) = true
  is_object _ = false

  unfoldable pub is_array : Json D → Bool
  is_array (arr vs) = true
  is_array _ = false

  unfoldable pub is_null : Json D → Bool
  is_null null = true
  is_null _ = false

-- The names of types that checkType knows.
pub data TypeName : Type 0 where
  string_ number integer double boolean object array null_ enum_ any other : TypeName

unfoldable pub type_name : String → TypeName
type_name s =
    if str_eq s "string"
    then string_
    else if str_eq s "number"
    then number
    else if str_eq s "integer"
    then integer
    else if str_eq s "double"
    then double
    else if str_eq s "boolean"
    then boolean
    else if str_eq s "object"
    then object
    else if str_eq s "array"
    then array
    else if str_eq s "null"
    then null_
    else if str_eq s "enum"
    then enum_
    else if str_eq s "any"
    then any
    else other

module _ {D : Type 0} (f : Numbers D) where
  unfoldable pub wrong_type : TypeName → Json D → Bool
  unfolding is_string is_double is_bool is_object is_array is_null
  wrong_type string_ value = not (is_string value)
  wrong_type number value = not (is_double value)
  wrong_type integer value = not (f.eqb_double (f.rint (to_double f value)) (to_double f value))
  wrong_type double value = not (is_double value)
  wrong_type boolean value = not (is_bool value)
  wrong_type object value = not (is_object value)
  wrong_type array value = not (is_array value)
  wrong_type null_ value = not (is_null value)
  wrong_type enum_ value = not (is_string value)
  wrong_type any value = false
  wrong_type other value = false

  unfoldable pub check_type : Json D → Json D → Checker → Checker
  unfolding wrong_type type_name fail
  check_type value schema c =
      let type = to_string schema in
      if wrong_type (type_name type) value then fail (append type " expected") c else c

  unfoldable pub check_minimum : Json D → Json D → Checker → Checker
  unfolding fail
  check_minimum (num x) schema c =
      if f.ltb_double x (to_double f schema)
      then fail
          (append "value is too small (minimum=" (append (f.print_double (to_double f schema)) ")"))
          c
      else c
  check_minimum _ schema c = fail "minimum check only for numeric fields" c

  unfoldable pub check_maximum : Json D → Json D → Checker → Checker
  unfolding fail
  check_maximum (num x) schema c =
      if f.ltb_double (to_double f schema) x
      then fail
          (append "value is too large (maximum=" (append (f.print_double (to_double f schema)) ")"))
          c
      else c
  check_maximum _ schema c = fail "maximum check only for numeric fields" c

  -- QJsonValue::toInt
  unfoldable pub to_int : Json D → ℤ
  to_int (num x) = f.to_int x
  to_int _ = pos 0

  unfoldable pub check_min_items : Json D → Json D → Checker → Checker
  unfolding fail to_int print_int
  check_min_items (arr vs) schema c =
      if ltb_ℤ (pos (length (elements vs))) (to_int schema)
      then fail (append "array is too small (minimum=" (append (print_int (to_int schema)) ")")) c
      else c
  check_min_items _ schema c = fail "minItems only valid for arrays" c

  unfoldable pub check_max_items : Json D → Json D → Checker → Checker
  unfolding fail to_int print_int
  check_max_items (arr vs) schema c =
      if ltb_ℤ (to_int schema) (pos (length (elements vs)))
      then fail (append "array is too large (maximum=" (append (print_int (to_int schema)) ")")) c
      else c
  check_max_items _ schema c = fail "maxItems only valid for arrays" c

  -- The inner loop, on the items behind `x`.
  unfoldable pub unique_from : Json D → List (Json D) → Checker → Checker
  unfolding fail
  unique_from x [] c = c
  unique_from x (y ∷ ys) c =
      unique_from x ys (if f.eqb_json x y then fail "array must have unique values" c else c)

  unfoldable pub unique_items : List (Json D) → Checker → Checker
  unfolding unique_from
  unique_items [] c = c
  unique_items (x ∷ xs) c = unique_items xs (unique_from x xs c)

  unfoldable pub check_unique_items : Json D → Json D → Checker → Checker
  unfolding unique_items fail
  check_unique_items (arr vs) schema c = if to_bool schema then unique_items (elements vs) c else c
  check_unique_items _ schema c = fail "uniqueItems only valid for arrays" c

  unfoldable pub has_value : List (Json D) → Json D → Bool
  has_value [] value = false
  has_value (x ∷ xs) value = if f.eqb_json x value then true else has_value xs value

  unfoldable pub check_enum : Json D → Json D → Checker → Checker
  unfolding has_value fail is_array
  check_enum value schema c =
      if (if is_array schema then has_value (to_array schema) value else false)
      then c
      else fail
          (append (append "Unknown enum value (allowed values are: " (to_string schema))
            (append (f.to_json (to_array schema)) ")"))
          c
