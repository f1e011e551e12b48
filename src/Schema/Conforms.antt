-- ===== src/Schema/Conforms.antt =====
-- When a value conforms to a schema, said without the checker.
use Prim.Native.String.{String}
use hyperion_ng_beta.Prelude.{
  pos, ◌≤ℤ◌, Bool, true, false, none, some, List, [], ◌∷◌, length, All, ◌≡◌, ◌⊎◌,
}
use hyperion_ng_beta.Schema.Json.{
  Json, bool, num, str, arr, obj, null, Items, Fields, end, field, Numbers, elements, entries,
  to_object, to_string, to_bool, to_double, lookup,
}
use hyperion_ng_beta.Schema.Checker.{TypeName, type_name, to_int}
use hyperion_ng_beta.Schema.Validate.{
  Attribute, type_, properties, additional_properties, minimum, maximum, items, min_items,
  max_items, unique_items, enum_, ignored, unknown, attribute, ignored_properties, is_required,
}

-- The predicate holds of an element.
abbrev pub Any {ℓ} : {A : Type ℓ} → (A → Type 0) → List A → Type 0
Any P [] = ⊥
Any P (x ∷ xs) = P x ⊎ Any P xs

module _ {D : Type 0} (f : Numbers D) where
  -- Whole numbers count as integers, and so do all values that are no numbers, which read as 0.
  abbrev pub IsOfType : TypeName → Json D → Type 0
  IsOfType TypeName.string_ v = (s : String) × (v ≡ str s)
  IsOfType TypeName.number v = (x : D) × (v ≡ num x)
  IsOfType TypeName.integer v = f.eqb_double (f.rint (to_double f v)) (to_double f v) ≡ true
  IsOfType TypeName.double v = (x : D) × (v ≡ num x)
  IsOfType TypeName.boolean v = (b : Bool) × (v ≡ bool b)
  IsOfType TypeName.object v = (fs : Fields D) × (v ≡ obj fs)
  IsOfType TypeName.array v = (vs : Items D) × (v ≡ arr vs)
  IsOfType TypeName.null_ v = v ≡ null
  IsOfType TypeName.enum_ v = (s : String) × (v ≡ str s)
  IsOfType TypeName.any v = Unit
  IsOfType TypeName.other v = Unit

  -- No two items at different places are equal.
  abbrev pub Distinct : List (Json D) → Type 0
  Distinct [] = Unit
  Distinct (x ∷ xs) = All (λ y. f.eqb_json x y ≡ false) xs × Distinct xs

  -- A property that the schema does not name: its rule is a Boolean, or a schema for the object that
  -- toObject makes of the value.
  abbrev pub IsAllowed : (Json D → Type 0) → Json D → Json D → Type 0
  IsAllowed P (bool b) v = b ≡ true
  IsAllowed P _ v = P (obj (to_object v))

  abbrev pub IsNamed : List (String × Json D) → String → Type 0
  IsNamed names k = Any (λ e. e.0 ≡ k) names

  -- What one attribute asks of the value; `P` and `M` say what its own parts ask.
  abbrev pub Obeys :
      (Json D → Type 0)
      → (List (String × Json D) → Type 0)
      → Json D
      → Attribute
      → Fields D
      → Json D
      → Type 0
  Obeys P M a type_ schema v = IsOfType (type_name (to_string a)) v
  Obeys P M a properties schema v = (fs : Fields D) × (v ≡ obj fs) × M (entries fs)
  Obeys P M a additional_properties schema v =
      (fs : Fields D) × (v ≡ obj fs)
      × All (λ e. IsNamed (ignored_properties schema) e.0 ⊎ IsAllowed P a e.1) (entries fs)
  Obeys P M a minimum schema v = (x : D) × (v ≡ num x) × (f.ltb_double x (to_double f a) ≡ false)
  Obeys P M a maximum schema v = (x : D) × (v ≡ num x) × (f.ltb_double (to_double f a) x ≡ false)
  Obeys P M a items schema v = (vs : Items D) × (v ≡ arr vs) × All P (elements vs)
  Obeys P M a min_items schema v =
      (vs : Items D) × (v ≡ arr vs) × (to_int f a ≤ℤ pos (length (elements vs)))
  Obeys P M a max_items schema v =
      (vs : Items D) × (v ≡ arr vs) × (pos (length (elements vs)) ≤ℤ to_int f a)
  Obeys P M a unique_items schema v =
      (vs : Items D) × (v ≡ arr vs) × (to_bool a ≡ true → Distinct (elements vs))
  Obeys P M a enum_ schema v =
      (vs : Items D) × (a ≡ arr vs) × Any (λ x. f.eqb_json x v ≡ true) (elements vs)
  Obeys P M a ignored schema v = Unit
  Obeys P M a unknown schema v = ⊥

  -- A property of the schema is there and fits, or is missing, and may be.
  abbrev pub Fits : Bool → (Json D → Type 0) → String → Json D → List (String × Json D) → Type 0
  Fits ignore_required P k a given =
      ((v : Json D) × (lookup k given ≡ some v) × P v)
      ⊎ ((lookup k given ≡ none) × (is_required a ≡ true → ignore_required ≡ true))

  unfoldable mutual
    pub Conforms : Bool → Json D → Json D → Type 0
    Conforms g (obj fs) v = Satisfies g fs fs v
    Conforms g _ v = Unit

    pub Satisfies : Bool → Fields D → Fields D → Json D → Type 0
    Satisfies g end schema v = Unit
    Satisfies g (field k a fs) schema v =
        Obeys (Conforms g a) (Members g a) a (attribute k) schema v × Satisfies g fs schema v

    pub Members : Bool → Json D → List (String × Json D) → Type 0
    Members g (obj ps) given = HasAll g ps given
    Members g _ given = Unit

    pub HasAll : Bool → Fields D → List (String × Json D) → Type 0
    HasAll g end given = Unit
    HasAll g (field k a ps) given = Fits g (Conforms g a) k a given × HasAll g ps given
