-- ===== src/Schema/Json.antt =====
-- The values of QJsonValue, and what the checks ask of numbers and of the library that holds them.
use Prim.Native.String.{String}
use text.Mathlib.Text.{◌==◌ as str_eq}
use hyperion_ng_beta.Prelude.{ℤ, Bool, true, false, Option, none, some, List, [], ◌∷◌}
use hyperion_ng_beta.Prelude.{if◌then◌else◌, ◌≡◌}

mutual
  pub data Json (D : Type 0) : Type 0 where
    null : Json D
    bool : Bool → Json D
    num : D → Json D
    str : String → Json D
    arr : Items D → Json D
    obj : Fields D → Json D

  pub data Items (D : Type 0) : Type 0 where
    nil : Items D
    cons : Json D → Items D → Items D

  pub data Fields (D : Type 0) : Type 0 where
    end : Fields D
    field : String → Json D → Fields D → Fields D

-- The operations on double, and those of QJsonValue and of QJsonDocument that the checks call.
pub record Numbers (D : Type 0) : Type 0 where
  pub zero_double : D
  pub ltb_double : D → D → Bool
  pub eqb_double : D → D → Bool
  pub rint : D → D
  pub to_int : D → ℤ
  pub print_double : D → String
  pub eqb_json : Json D → Json D → Bool
  pub to_json : List (Json D) → String
  -- rint(0.0) == 0.0
  pub rint-zero : eqb_double (rint zero_double) zero_double ≡ true

module _ {D : Type 0} where
  abbrev pub elements : Items D → List (Json D)
  elements nil = []
  elements (cons v vs) = v ∷ elements vs

  abbrev pub entries : Fields D → List (String × Json D)
  entries end = []
  entries (field k v fs) = (k, v) ∷ entries fs

  -- The conversions of QJsonValue give a default for a value of another type.
  abbrev pub to_object : Json D → Fields D
  to_object (obj fs) = fs
  to_object _ = end

  abbrev pub to_array : Json D → List (Json D)
  to_array (arr vs) = elements vs
  to_array _ = []

  abbrev pub to_string : Json D → String
  to_string (str s) = s
  to_string _ = ""

  abbrev pub to_bool : Json D → Bool
  to_bool (bool b) = b
  to_bool _ = false

  -- QJsonObject::value, contains and find.
  unfoldable pub lookup : String → List (String × Json D) → Option (Json D)
  lookup k [] = none
  lookup k ((j, v) ∷ m) = if str_eq j k then some v else lookup k m

  abbrev pub to_double : Numbers D → Json D → D
  to_double f (num x) = x
  to_double f _ = f.zero_double
