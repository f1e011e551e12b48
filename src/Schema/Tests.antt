-- ===== src/Schema/Tests.antt =====
-- Runs of the schema checker.
use Prim.Native.String.{String}
use text.Mathlib.Text.{◌==◌ as str_eq}
use hyperion_ng_beta.Prelude.{
  ℕ, ◌==◌, ltb, pos, Bool, true, false, List, [], ◌∷◌, ◌++◌, ◌≡◌, refl, ◌↔◌, ◌||◌, ◌&&◌, not,
}
use hyperion_ng_beta.Schema.Json.{
  Json, null, bool, num, str, arr, obj, Items, nil, cons, Fields, end, field, Numbers, lookup,
}
use hyperion_ng_beta.Schema.Checker.{Checker, print_int}
use hyperion_ng_beta.Schema.Validate.{validate, validate_value}
use hyperion_ng_beta.Schema.Conforms.{Conforms}
use hyperion_ng_beta.Schema.Outcome.{is_some_message}
use hyperion_ng_beta.Schema.Sound.{validate_iff, validate_value_effect}

-- Whole numbers in place of doubles, and equality of the values by their parts.
bool_eq : Bool → Bool → Bool
bool_eq true b = b
bool_eq false b = not b

mutual
  unfolding bool_eq

  json_eq : Json ℕ → Json ℕ → Bool
  json_eq null null = true
  json_eq (bool a) (bool b) = bool_eq a b
  json_eq (num a) (num b) = a == b
  json_eq (str a) (str b) = str_eq a b
  json_eq (arr a) (arr b) = items_eq a b
  json_eq (obj a) (obj b) = fields_eq a b
  json_eq a b = false

  items_eq : Items ℕ → Items ℕ → Bool
  items_eq nil nil = true
  items_eq (cons a as') (cons b bs) = json_eq a b && items_eq as' bs
  items_eq a b = false

  fields_eq : Fields ℕ → Fields ℕ → Bool
  fields_eq end end = true
  fields_eq (field j a fs) (field k b gs) = str_eq j k && json_eq a b && fields_eq fs gs
  fields_eq a b = false

abbrev whole_numbers : Numbers ℕ
unfolding json_eq
whole_numbers = record {
  zero_double = 0;
  ltb_double = ltb;
  eqb_double = ◌==◌;
  rint = λ x. x;
  to_int = pos;
  print_double = λ x. print_int (pos x);
  eqb_json = json_eq;
  to_json = λ xs. "[]";
  rint-zero = refl;
}

-- An object with the led count and a list of names.
abbrev sample_schema : Fields ℕ
sample_schema =
    field "properties"
      (obj (
        field "count" (obj (field "maximum" (num 9) (field "required" (bool true) end))) (
          field "names"
            (obj (
              field "items" (obj (field "type" (str "string") end))
                (field "uniqueItems" (bool true) end)))
            end)))
      end

abbrev sample_value : Fields ℕ
sample_value = field "count" (num 4) (field "names" (arr (cons (str "a") (cons (str "b") nil))) end)

abbrev wrong_value : Fields ℕ
wrong_value = field "names" (arr (cons (str "a") (cons (num 3) (cons (str "a") nil)))) end

validate_accepts : (validate whole_numbers sample_schema sample_value false).messages ≡ []
unfolding validate lookup json_eq
validate_accepts = refl

validate_reports :
    (validate whole_numbers sample_schema wrong_value false).messages
    ≡ "[root].count: missing member" ∷ "[root].names[1]: string expected"
      ∷ "[root].names: array must have unique values" ∷ []
unfolding validate lookup json_eq
validate_reports = refl

validate_iff_example :
    ((validate whole_numbers sample_schema sample_value false).error ≡ false)
    ↔ Conforms whole_numbers false (obj sample_schema) (obj sample_value)
validate_iff_example = validate_iff whole_numbers sample_schema sample_value false

abbrev midway : Checker
midway = record {
  ignore_required = true;
  error = false;
  messages = [];
  current_path = "[root]" ∷ ".leds" ∷ [];
}

validate_value_effect_example :
    (new : List String) × ((validate_value whole_numbers
        (obj sample_schema)
        (obj wrong_value)
        midway).messages
      ≡ midway.messages ++ new)
    × ((validate_value whole_numbers (obj sample_schema) (obj wrong_value) midway).error
        ≡ (midway.error || is_some_message new))
    × ((validate_value whole_numbers (obj sample_schema) (obj wrong_value) midway).current_path
        ≡ midway.current_path)
validate_value_effect_example =
    validate_value_effect whole_numbers (obj sample_schema) (obj wrong_value) midway
