-- ===== src/Schema/Sound/Plain.antt =====
-- The checks that look at the value itself: its range, its size and its equal items.
use hyperion_ng_beta.Prelude.{
  pos, ◌≤ℤ◌, ltb_ℤ, Bool, true, false, Bool-cases, List, [], ◌∷◌, length, All, ◌≡◌, refl, inl, inr,
  if◌then◌else◌, arith, ℤ,
}
use hyperion_ng_beta.Schema.Json.{Json, num, arr, Items, Numbers, elements, to_bool, to_double}
use hyperion_ng_beta.Schema.Checker.{
  Checker, to_int, check_minimum, check_maximum, check_min_items, check_max_items, unique_from,
  unique_items, check_unique_items, has_value, check_enum,
}
use hyperion_ng_beta.Schema.Conforms.{Any, Distinct}
use hyperion_ng_beta.Schema.Outcome.{
  Outcome, Outcome-pass, Outcome-fail, Outcome-test, Outcome-then, Outcome-map,
}

ltb_ℤ-le : (a b : ℤ) → ltb_ℤ a b ≡ false → b ≤ℤ a
unfolding ltb_ℤ
ltb_ℤ-le a b h = ground arith

le-ltb_ℤ : (a b : ℤ) → b ≤ℤ a → ltb_ℤ a b ≡ false
unfolding ltb_ℤ
le-ltb_ℤ a b h = ground arith

module _ {D : Type 0} where
  num_eq : {x y : D} → ◌≡◌ {A = Json D} (num x) (num y) → x ≡ y
  num_eq e = cc

  arr_eq : {x y : Items D} → ◌≡◌ {A = Json D} (arr x) (arr y) → x ≡ y
  arr_eq e = cc

module _ {D : Type 0} (f : Numbers D) where
  pub check_minimum-Outcome :
      (v a : Json D) (c : Checker)
      → Outcome
          ((x : D) × (v ≡ num x) × (f.ltb_double x (to_double f a) ≡ false))
          c
          (check_minimum f v a c)
  unfolding check_minimum
  check_minimum-Outcome (num x) a c =
      Outcome-test _ _ c (λ e. (x, refl, e)) (λ (y, e, h). rw (num_eq e) h)
  check_minimum-Outcome _ a c =
      Outcome-fail "minimum check only for numeric fields" c (λ (y, e, h). cc)

  pub check_maximum-Outcome :
      (v a : Json D) (c : Checker)
      → Outcome
          ((x : D) × (v ≡ num x) × (f.ltb_double (to_double f a) x ≡ false))
          c
          (check_maximum f v a c)
  unfolding check_maximum
  check_maximum-Outcome (num x) a c =
      Outcome-test _ _ c (λ e. (x, refl, e)) (λ (y, e, h). rw (num_eq e) h)
  check_maximum-Outcome _ a c =
      Outcome-fail "maximum check only for numeric fields" c (λ (y, e, h). cc)

  pub check_min_items-Outcome :
      (v a : Json D) (c : Checker)
      → Outcome
          ((vs : Items D) × (v ≡ arr vs) × (to_int f a ≤ℤ pos (length (elements vs))))
          c
          (check_min_items f v a c)
  unfolding check_min_items
  check_min_items-Outcome (arr vs) a c =
      Outcome-test _ _ c (λ e. (vs, refl, ltb_ℤ-le _ _ e))
        (λ (y, e, h). rw (arr_eq e) (le-ltb_ℤ _ _ h))
  check_min_items-Outcome _ a c = Outcome-fail "minItems only valid for arrays" c (λ (y, e, h). cc)

  pub check_max_items-Outcome :
      (v a : Json D) (c : Checker)
      → Outcome
          ((vs : Items D) × (v ≡ arr vs) × (pos (length (elements vs)) ≤ℤ to_int f a))
          c
          (check_max_items f v a c)
  unfolding check_max_items
  check_max_items-Outcome (arr vs) a c =
      Outcome-test _ _ c (λ e. (vs, refl, ltb_ℤ-le _ _ e))
        (λ (y, e, h). rw (arr_eq e) (le-ltb_ℤ _ _ h))
  check_max_items-Outcome _ a c = Outcome-fail "maxItems only valid for arrays" c (λ (y, e, h). cc)

  unique_from-Outcome :
      (x : Json D) (ys : List (Json D)) (c : Checker)
      → Outcome (All (λ y. f.eqb_json x y ≡ false) ys) c (unique_from f x ys c)
  unfolding unique_from
  unique_from-Outcome x [] c = Outcome-pass c tt
  unique_from-Outcome x (y ∷ ys) c =
      Outcome-then
        (Outcome-test (f.eqb_json x y) "array must have unique values" c (λ e. e) (λ e. e))
        (unique_from-Outcome x ys _)

  unique_items-Outcome :
      (xs : List (Json D)) (c : Checker) → Outcome (Distinct f xs) c (unique_items f xs c)
  unfolding unique_items
  unique_items-Outcome [] c = Outcome-pass c tt
  unique_items-Outcome (x ∷ xs) c =
      Outcome-then (unique_from-Outcome x xs c) (unique_items-Outcome xs _)

  unique_if_Outcome :
      (b : Bool) (xs : List (Json D)) (c : Checker)
      → Outcome (b ≡ true → Distinct f xs) c (if b then unique_items f xs c else c)
  unique_if_Outcome true xs c = Outcome-map (λ h _. h) (λ h. h refl) (unique_items-Outcome xs c)
  unique_if_Outcome false xs c = Outcome-pass c (λ e. cc)

  pub check_unique_items-Outcome :
      (v a : Json D) (c : Checker)
      → Outcome
          ((vs : Items D) × (v ≡ arr vs) × (to_bool a ≡ true → Distinct f (elements vs)))
          c
          (check_unique_items f v a c)
  unfolding check_unique_items
  check_unique_items-Outcome (arr vs) a c =
      Outcome-map (λ h. (vs, refl, h)) (λ (ws, e, h). rw (arr_eq e) h)
        (unique_if_Outcome (to_bool a) (elements vs) c)
  check_unique_items-Outcome _ a c =
      Outcome-fail "uniqueItems only valid for arrays" c (λ (y, e, h). cc)

  has_value_sound :
      (xs : List (Json D)) (v : Json D)
      → has_value f xs v ≡ true
      → Any (λ x. f.eqb_json x v ≡ true) xs
  unfolding has_value
  has_value_sound [] v h = cc
  has_value_sound (x ∷ xs) v h = elim (Bool-cases (f.eqb_json x v)) [
    | inl e ↦ inl e
    | inr e ↦ inr (has_value_sound xs v (rw e at h))
  ]

  has_value_complete :
      (xs : List (Json D)) (v : Json D)
      → Any (λ x. f.eqb_json x v ≡ true) xs
      → has_value f xs v ≡ true
  unfolding has_value
  has_value_complete [] v h = absurd h
  has_value_complete (x ∷ xs) v (inl e) = rw e
  has_value_complete (x ∷ xs) v (inr h) = ground (arith, has_value_complete xs v h)

  pub check_enum-Outcome :
      (v a : Json D) (c : Checker)
      → Outcome
          ((vs : Items D) × (a ≡ arr vs) × Any (λ x. f.eqb_json x v ≡ true) (elements vs))
          c
          (check_enum f v a c)
  unfolding check_enum
  check_enum-Outcome v (arr vs) c = elim (Bool-cases (has_value f (elements vs) v)) [
    | inl e ↦ rw e (Outcome-pass c (vs, refl, has_value_sound (elements vs) v e))
    | inr e ↦ rw e (
        Outcome-fail _ c
          (λ (ws, d, h). let t = has_value_complete (elements vs) v (rw (arr_eq d) h) in cc))
  ]
  check_enum-Outcome v _ c = Outcome-fail _ c (λ (ws, e, h). cc)
