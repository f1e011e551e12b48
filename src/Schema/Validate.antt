-- ===== src/Schema/Validate.antt =====
-- validate of libsrc/utils/jsonschema/QJsonSchemaChecker.cpp, and the checks that call it again on a
-- part of the schema.
use Prim.Native.String.{String, ◌++◌ as append}
use text.Mathlib.Text.{◌==◌ as str_eq}
use hyperion_ng_beta.Prelude.{
  ℕ, suc, pos, Bool, true, false, not, ◌&&◌, if◌then◌else◌, none, some, List, [], ◌∷◌,
}
use hyperion_ng_beta.Schema.Json.{
  Json, bool, arr, obj, Fields, end, field, Numbers, elements, entries, to_object, to_bool, lookup,
}
use hyperion_ng_beta.Schema.Checker.{
  Checker, fail, push_path, pop_path, print_int, check_type, check_minimum, check_maximum,
  check_min_items, check_max_items, check_unique_items, check_enum,
}

-- The attributes of a schema, by the tests of validate.
pub data Attribute : Type 0 where
  type_ properties additional_properties minimum maximum items min_items : Attribute
  max_items unique_items enum_ ignored unknown : Attribute

unfoldable pub is_one_of : List String → String → Bool
is_one_of [] k = false
is_one_of (s ∷ ss) k = if str_eq k s then true else is_one_of ss k

abbrev pub ignored_attributes : List String
ignored_attributes =
    "required" ∷ "id" ∷ "title" ∷ "description" ∷ "default" ∷ "format" ∷ "defaultProperties"
    ∷ "propertyOrder" ∷ "append" ∷ "step" ∷ "access" ∷ "options" ∷ "script" ∷ []

unfoldable pub attribute : String → Attribute
unfolding is_one_of
attribute k =
    if str_eq k "type"
    then type_
    else if str_eq k "properties"
    then properties
    else if str_eq k "additionalProperties"
    then additional_properties
    else if str_eq k "minimum"
    then minimum
    else if str_eq k "maximum"
    then maximum
    else if str_eq k "items"
    then items
    else if str_eq k "minItems"
    then min_items
    else if str_eq k "maxItems"
    then max_items
    else if str_eq k "uniqueItems"
    then unique_items
    else if str_eq k "enum"
    then enum_
    else if is_one_of ignored_attributes k
    then ignored
    else unknown

-- `validate` with a part of the schema, which the loops call.
abbrev pub Validation : Type 0 → Type 0
Validation D = Json D → Checker → Checker

module _ {D : Type 0} where
  unfoldable pub check_items_from : Validation D → ℕ → List (Json D) → Checker → Checker
  unfolding push_path pop_path print_int
  check_items_from validate i [] c = c
  check_items_from validate i (v ∷ vs) c =
      check_items_from validate (suc i) vs
        (pop_path (validate v (push_path (append "[" (append (print_int (pos i)) "]")) c)))

  -- `checkItems`, with the same test before it.
  unfoldable pub check_items : Validation D → Json D → Checker → Checker
  unfolding check_items_from fail
  check_items validate (arr vs) c = check_items_from validate 0 (elements vs) c
  check_items validate _ c = fail "items only valid for arrays" c

  -- std::find on the names
  unfoldable pub has_name : List (String × Json D) → String → Bool
  has_name [] k = false
  has_name ((j, v) ∷ m) k = if str_eq j k then true else has_name m k

  -- The properties of the schema's own attribute `properties`, if it has one.
  unfoldable pub ignored_properties : Fields D → List (String × Json D)
  unfolding lookup
  ignored_properties schema = elim (lookup "properties" (entries schema)) [
    | none ↦ []
    | some props ↦ entries (to_object props)
  ]

  unfoldable pub additional : Validation D → Json D → Json D → Checker → Checker
  unfolding fail
  additional validate (bool b) value c = if b then c else fail "no schema definition" c
  additional validate _ value c = validate (obj (to_object value)) c

  unfoldable pub check_additional_from :
      Validation D → Json D → List (String × Json D) → List (String × Json D) → Checker → Checker
  unfolding push_path pop_path additional has_name
  check_additional_from validate schema names [] c = c
  check_additional_from validate schema names ((k, v) ∷ m) c =
      check_additional_from validate schema names m (
        if has_name names k
        then c
        else pop_path (additional validate schema v (push_path (append "." k) c)))

  unfoldable pub check_additional :
      Validation D → Json D → List (String × Json D) → Json D → Checker → Checker
  unfolding check_additional_from fail
  check_additional validate schema names (obj fs) c =
      check_additional_from validate schema names (entries fs) c
  check_additional validate schema names _ c =
      fail "additional properties attribute is only valid for objects" c

  -- `find("required")` and `toBool` of what it found.
  unfoldable pub is_required : Json D → Bool
  unfolding lookup
  is_required schema = elim (lookup "required" (entries (to_object schema))) [
    | none ↦ false
    | some b ↦ to_bool b
  ]

  unfoldable pub check_property :
      Validation D → String → Json D → List (String × Json D) → Checker → Checker
  unfolding push_path pop_path lookup is_required fail
  check_property validate k schema given c =
      let c' = push_path (append "." k) c in
      pop_path (elim (lookup k given) [
        | some v ↦ validate v c'
        | none ↦
            if is_required schema && not c'.ignore_required then fail "missing member" c' else c'
      ])

module _ {D : Type 0} (f : Numbers D) where
  -- The branches of the loop in validate. What an attribute `v` does to a part of the value is given:
  -- `validate` with the schema `v`, and `checkProperties` with the properties in `v`.
  unfoldable pub check_attribute :
      Validation D
      → (List (String × Json D) → Checker → Checker)
      → Json D
      → Attribute
      → String
      → Fields D
      → Json D
      → Checker
      → Checker
  unfolding check_type check_minimum check_maximum check_items check_min_items check_max_items
      check_unique_items check_enum check_additional ignored_properties fail
  check_attribute validate check v type_ k schema value c = check_type f value v c
  check_attribute validate check v properties k schema (obj fs) c = check (entries fs) c
  check_attribute validate check v properties k schema value c =
      fail "properties attribute is only valid for objects" c
  check_attribute validate check v additional_properties k schema value c =
      check_additional validate v (ignored_properties schema) value c
  check_attribute validate check v minimum k schema value c = check_minimum f value v c
  check_attribute validate check v maximum k schema value c = check_maximum f value v c
  check_attribute validate check v items k schema value c = check_items validate value c
  check_attribute validate check v min_items k schema value c = check_min_items f value v c
  check_attribute validate check v max_items k schema value c = check_max_items f value v c
  check_attribute validate check v unique_items k schema value c = check_unique_items f value v c
  check_attribute validate check v enum_ k schema value c = check_enum f value v c
  check_attribute validate check v ignored k schema value c = c
  check_attribute validate check v unknown k schema value c =
      fail (append "No check function defined for attribute " k) c

  unfoldable mutual
    unfolding attribute check_attribute check_property

    -- validate(value, schema.toObject())
    pub validate_value : Json D → Json D → Checker → Checker
    validate_value (obj fs) value c = check_attributes fs fs value c
    validate_value _ value c = c

    -- The loop on the attributes of the schema.
    pub check_attributes : Fields D → Fields D → Json D → Checker → Checker
    check_attributes end schema value c = c
    check_attributes (field k v fs) schema value c =
        check_attributes fs schema value
          (check_attribute (validate_value v) (check_object v) v (attribute k) k schema value c)

    -- checkProperties(value, attributeValue.toObject())
    pub check_object : Json D → List (String × Json D) → Checker → Checker
    check_object (obj ps) given c = check_properties ps given c
    check_object _ given c = c

    pub check_properties : Fields D → List (String × Json D) → Checker → Checker
    check_properties end given c = c
    check_properties (field k v ps) given c =
        check_properties ps given (check_property (validate_value v) k v given c)

-- The state that the public validate starts with.
unfoldable pub started : Bool → Checker
started ignore_required = record {
  ignore_required = ignore_required;
  error = false;
  messages = [];
  current_path = "[root]" ∷ [];
}

-- The public validate; its result is `!_error`.
unfoldable pub validate : {D : Type 0} → Numbers D → Fields D → Fields D → Bool → Checker
unfolding validate_value started
validate f schema value ignore_required =
    validate_value f (obj schema) (obj value) (started ignore_required)
