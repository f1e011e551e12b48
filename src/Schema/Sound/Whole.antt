-- ===== src/Schema/Sound/Whole.antt =====
-- The recursion of validate on the schema.
use Prim.Native.String.{String}
use hyperion_ng_beta.Prelude.{Bool, false, ◌||◌, List, [], ◌∷◌, ◌++◌, ◌≡◌, refl, sym, ◌∙◌, ◌↔◌}
use hyperion_ng_beta.Schema.Json.{Json, obj, Fields, end, field, Numbers, entries}
use hyperion_ng_beta.Schema.Checker.{Checker}
use hyperion_ng_beta.Schema.Validate.{
  Attribute, type_, properties, additional_properties, minimum, maximum, items, min_items,
  max_items, unique_items, enum_, ignored, unknown, attribute, ignored_properties, Validation,
  check_attribute, validate_value, check_attributes, check_object, check_properties, validate,
  started,
}
use hyperion_ng_beta.Schema.Conforms.{Obeys, Conforms, Satisfies, Members, HasAll}
use hyperion_ng_beta.Schema.Outcome.{
  Outcome, Outcome-pass, Outcome-fail, Outcome-then, Outcome-map, is_some_message,
}
use hyperion_ng_beta.Schema.Sound.Types.{check_type-Outcome}
use hyperion_ng_beta.Schema.Sound.Plain.{
  check_minimum-Outcome, check_maximum-Outcome, check_min_items-Outcome, check_max_items-Outcome,
  check_unique_items-Outcome, check_enum-Outcome,
}
use hyperion_ng_beta.Schema.Sound.Parts.{
  Checks, check_items-Outcome, check_additional-Outcome, check_property-Outcome, obj_eq,
}

module _ {D : Type 0} (f : Numbers D) (g : Bool) where
  module _ (P : Json D → Type 0) (M : List (String × Json D) → Type 0) (validate : Validation D)
      (check : List (String × Json D) → Checker → Checker) (checks : Checks g P validate)
      (members : (given : List (String × Json D)) (c : Checker)
        → c.ignore_required ≡ g
        → Outcome (M given) c (check given c))
      (a : Json D) (k : String) (schema : Fields D) where
    check_attribute-Outcome :
        (t : Attribute) (v : Json D) (c : Checker)
        → c.ignore_required ≡ g
        → Outcome (Obeys f P M a t schema v) c (check_attribute f validate check a t k schema v c)
    unfolding check_attribute
    check_attribute-Outcome type_ v c e = check_type-Outcome f v a c
    check_attribute-Outcome properties (obj fs) c e =
        Outcome-map (λ h. (fs, refl, h)) (λ (gs, d, h). rw (obj_eq d) h) (members (entries fs) c e)
    check_attribute-Outcome properties _ c e =
        Outcome-fail "properties attribute is only valid for objects" c (λ (gs, d, h). cc)
    check_attribute-Outcome additional_properties v c e =
        check_additional-Outcome f g P validate checks a (ignored_properties schema) v c e
    check_attribute-Outcome minimum v c e = check_minimum-Outcome f v a c
    check_attribute-Outcome maximum v c e = check_maximum-Outcome f v a c
    check_attribute-Outcome items v c e = check_items-Outcome f g P validate checks v c e
    check_attribute-Outcome min_items v c e = check_min_items-Outcome f v a c
    check_attribute-Outcome max_items v c e = check_max_items-Outcome f v a c
    check_attribute-Outcome unique_items v c e = check_unique_items-Outcome f v a c
    check_attribute-Outcome enum_ v c e = check_enum-Outcome f v a c
    check_attribute-Outcome ignored v c e = Outcome-pass c tt
    check_attribute-Outcome unknown v c e = Outcome-fail _ c (λ h. h)

  mutual
    unfolding validate_value Conforms

    validate_value_checks :
        (a v : Json D) (c : Checker)
        → c.ignore_required ≡ g
        → Outcome (Conforms f g a v) c (validate_value f a v c)
    validate_value_checks (obj fs) v c e = check_attributes-Outcome fs fs v c e
    validate_value_checks _ v c e = Outcome-pass c tt

    check_attributes-Outcome :
        (fs schema : Fields D) (v : Json D) (c : Checker)
        → c.ignore_required ≡ g
        → Outcome (Satisfies f g fs schema v) c (check_attributes f fs schema v c)
    check_attributes-Outcome end schema v c e = Outcome-pass c tt
    check_attributes-Outcome (field k a fs) schema v c e =
        let step =
          check_attribute-Outcome (Conforms f g a) (Members f g a) (validate_value f a)
            (check_object f a) (validate_value_checks a) (check_object-Outcome a) a k schema
            (attribute k) v c e in
        Outcome-then step (check_attributes-Outcome fs schema v _ (step.same_rule ∙ e))

    check_object-Outcome :
        (a : Json D) (given : List (String × Json D)) (c : Checker)
        → c.ignore_required ≡ g
        → Outcome (Members f g a given) c (check_object f a given c)
    check_object-Outcome (obj ps) given c e = check_properties-Outcome ps given c e
    check_object-Outcome _ given c e = Outcome-pass c tt

    check_properties-Outcome :
        (ps : Fields D) (given : List (String × Json D)) (c : Checker)
        → c.ignore_required ≡ g
        → Outcome (HasAll f g ps given) c (check_properties f ps given c)
    check_properties-Outcome end given c e = Outcome-pass c tt
    check_properties-Outcome (field k a ps) given c e =
        let step =
          check_property-Outcome f g (Conforms f g a) (validate_value f a) (validate_value_checks a)
            k a given c e in
        Outcome-then step (check_properties-Outcome ps given _ (step.same_rule ∙ e))

nil-is_some_message : (xs : List String) → is_some_message xs ≡ false → xs ≡ []
nil-is_some_message [] h = refl
nil-is_some_message (x ∷ xs) h = cc

is_some_message-nil : (xs : List String) → xs ≡ [] → is_some_message xs ≡ false
is_some_message-nil xs e = rw e

module _ {D : Type 0} (f : Numbers D) where
  -- QJsonSchemaChecker::validate succeeds for a value exactly if the value conforms to the schema:
  -- it obeys every attribute, at any depth, each item and each property that is there conforms in
  -- turn, a property is missing only if it is not required or required properties are ignored, and
  -- a value is of the type integer also if it is no number.
  pub validate_iff :
      (schema value : Fields D) (ignore_required : Bool)
      → ((validate f schema value ignore_required).error ≡ false)
        ↔ Conforms f ignore_required (obj schema) (obj value)
  unfolding validate
  validate_iff schema value g =
      let o = validate_value_checks f g (obj schema) (obj value) (started g) refl in
      (
        λ e. o.sound (nil-is_some_message o.new (sym o.flags ∙ e)),
        λ h. o.flags ∙ is_some_message-nil o.new (o.complete h),
      )

  -- Checking a value by a part of the schema, from any state of the checker, keeps the messages
  -- and adds new ones behind them, sets the error flag exactly if it adds one, and leaves the path
  -- as it was.
  pub validate_value_effect :
      (schema value : Json D) (c : Checker)
      → (new : List String) × ((validate_value f schema value c).messages ≡ c.messages ++ new)
        × ((validate_value f schema value c).error ≡ (c.error || is_some_message new))
        × ((validate_value f schema value c).current_path ≡ c.current_path)
  validate_value_effect schema value c =
      let o = validate_value_checks f c.ignore_required schema value c refl in
      (o.new, o.adds, o.flags, o.same_path)
