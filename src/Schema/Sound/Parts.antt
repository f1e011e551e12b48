-- ===== src/Schema/Sound/Parts.antt =====
-- The loops of the checker that call validate on parts of the value.
use Prim.Native.String.{String, ◌++◌ as append}
use text.Mathlib.Text.{◌==◌ as str_eq}
use text.Mathlib.TextEquality.{eq_iff}
use hyperion_ng_beta.Prelude.{
  ℕ, suc, pos, Bool, true, false, not, ◌&&◌, Bool-cases, Option-cases, List, [], ◌∷◌, All, ◌≡◌,
  refl, inl, inr, ◌⊎◌, ◌∙◌, arith, if◌then◌else◌,
}
use hyperion_ng_beta.Schema.Json.{
  Json, bool, arr, obj, Items, Fields, elements, entries, to_object, lookup,
}
use hyperion_ng_beta.Schema.Checker.{Checker, push_path, pop_path, print_int, fail}
use hyperion_ng_beta.Schema.Validate.{
  Validation, check_items_from, check_items, has_name, additional, check_additional_from,
  check_additional, is_required, check_property,
}
use hyperion_ng_beta.Schema.Conforms.{IsAllowed, IsNamed, Fits}
use hyperion_ng_beta.Schema.Json.{Numbers}
use hyperion_ng_beta.Schema.Outcome.{
  Outcome, Outcome-pass, Outcome-fail, Outcome-test, Outcome-then, Outcome-map, Outcome-scope,
}

-- The validation checks for the predicate, under the rule for missing properties.
abbrev pub Checks : {D : Type 0} → Bool → (Json D → Type 0) → Validation D → Type 0
Checks {D} g P validate =
    (v : Json D) (c : Checker) → c.ignore_required ≡ g → Outcome (P v) c (validate v c)

module _ {D : Type 0} where
  arr_eq : {x y : Items D} → ◌≡◌ {A = Json D} (arr x) (arr y) → x ≡ y
  arr_eq e = cc

  pub obj_eq : {x y : Fields D} → ◌≡◌ {A = Json D} (obj x) (obj y) → x ≡ y
  obj_eq e = cc

module _ {D : Type 0} (f : Numbers D) (g : Bool) (P : Json D → Type 0) (validate : Validation D)
    (checks : Checks g P validate) where
  check_items_from-Outcome :
      (i : ℕ) (vs : List (Json D)) (c : Checker)
      → c.ignore_required ≡ g
      → Outcome (All P vs) c (check_items_from validate i vs c)
  unfolding check_items_from
  check_items_from-Outcome i [] c e = Outcome-pass c tt
  check_items_from-Outcome i (v ∷ vs) c e =
      let part = append "[" (append (print_int (pos i)) "]") in
      let step = Outcome-scope part (checks v (push_path part c) e) in
      Outcome-then step (check_items_from-Outcome (suc i) vs _ (step.same_rule ∙ e))

  pub check_items-Outcome :
      (v : Json D) (c : Checker)
      → c.ignore_required ≡ g
      → Outcome ((vs : Items D) × (v ≡ arr vs) × All P (elements vs)) c (check_items validate v c)
  unfolding check_items
  check_items-Outcome (arr vs) c e =
      Outcome-map (λ h. (vs, refl, h)) (λ (ws, d, h). rw (arr_eq d) h)
        (check_items_from-Outcome 0 (elements vs) c e)
  check_items-Outcome _ c e = Outcome-fail "items only valid for arrays" c (λ (y, d, h). cc)

  additional-Outcome :
      (a v : Json D) (c : Checker)
      → c.ignore_required ≡ g
      → Outcome (IsAllowed f P a v) c (additional validate a v c)
  unfolding additional
  additional-Outcome (bool true) v c e = Outcome-pass c refl
  additional-Outcome (bool false) v c e = Outcome-fail "no schema definition" c (λ d. cc)
  additional-Outcome _ v c e = checks (obj (to_object v)) c e

  -- The test on the names, both ways.
  has_name_cases :
      (names : List (String × Json D)) (k : String)
      → ((has_name names k ≡ true) × IsNamed f names k)
        ⊎ ((has_name names k ≡ false) × (IsNamed f names k → ⊥))
  unfolding has_name
  has_name_cases [] k = inr (refl, λ h. h)
  has_name_cases ((j, v) ∷ m) k = elim (Bool-cases (str_eq j k)) [
    | inl e ↦ inl (rw e, inl ((eq_iff j k).0 e))
    | inr e ↦ elim (has_name_cases m k) [
      | inl (d, h) ↦ inl (rw e d, inr h)
      | inr (d, h) ↦ inr (
        rw e d,
        λ n. elim n [ inl same ↦ let t = (eq_iff j k).1 same in cc | inr later ↦ h later ],
      )
    ]
  ]

  additional_step :
      (a : Json D) (names : List (String × Json D)) (k : String) (v : Json D) (c : Checker)
      → c.ignore_required ≡ g
      → Outcome (IsNamed f names k ⊎ IsAllowed f P a v) c (
          if has_name names k
          then c
          else pop_path (additional validate a v (push_path (append "." k) c)))
  unfolding push_path pop_path
  additional_step a names k v c e = elim (has_name_cases names k) [
    | inl (d, h) ↦ rw d (Outcome-pass c (inl h))
    | inr (d, h) ↦ rw d (
        Outcome-map inr (λ o. elim o [ inl n ↦ absurd (h n) | inr r ↦ r ])
          (Outcome-scope (append "." k) (additional-Outcome a v (push_path (append "." k) c) e)))
  ]

  check_additional_from-Outcome :
      (a : Json D) (names fs : List (String × Json D)) (c : Checker)
      → c.ignore_required ≡ g
      → Outcome
          (All (λ e. IsNamed f names e.0 ⊎ IsAllowed f P a e.1) fs)
          c
          (check_additional_from validate a names fs c)
  unfolding check_additional_from
  check_additional_from-Outcome a names [] c e = Outcome-pass c tt
  check_additional_from-Outcome a names ((k, v) ∷ m) c e =
      let step = additional_step a names k v c e in
      Outcome-then step (check_additional_from-Outcome a names m _ (step.same_rule ∙ e))

  pub check_additional-Outcome :
      (a : Json D) (names : List (String × Json D)) (v : Json D) (c : Checker)
      → c.ignore_required ≡ g
      → Outcome
          ((fs : Fields D) × (v ≡ obj fs)
            × All (λ e. IsNamed f names e.0 ⊎ IsAllowed f P a e.1) (entries fs))
          c
          (check_additional validate a names v c)
  unfolding check_additional
  check_additional-Outcome a names (obj fs) c e =
      Outcome-map (λ h. (fs, refl, h)) (λ (gs, d, h). rw (obj_eq d) h)
        (check_additional_from-Outcome a names (entries fs) c e)
  check_additional-Outcome a names _ c e =
      Outcome-fail "additional properties attribute is only valid for objects" c (λ (gs, d, h). cc)

  missing_sound : (r s : Bool) → s ≡ g → (r && not s) ≡ false → r ≡ true → g ≡ true
  missing_sound r s e h q = ground arith

  missing_complete : (r s : Bool) → s ≡ g → (r ≡ true → g ≡ true) → (r && not s) ≡ false
  missing_complete false s e h = refl
  missing_complete true s e h = let t : g ≡ true = h refl in cc

  pub check_property-Outcome :
      (k : String) (a : Json D) (given : List (String × Json D)) (c : Checker)
      → c.ignore_required ≡ g
      → Outcome (Fits f g P k a given) c (check_property validate k a given c)
  unfolding check_property
  check_property-Outcome k a given c e = elim (Option-cases (lookup k given)) [
    | inl d ↦ rw d (
        Outcome-scope
          {t = if is_required a && not c.ignore_required
            then fail "missing member" (push_path (append "." k) c)
            else push_path (append "." k) c}
          (append "." k)
          (Outcome-test (is_required a && not c.ignore_required) "missing member"
            (push_path (append "." k) c)
            (λ h. inr (refl, missing_sound (is_required a) c.ignore_required e h))
            (λ o. elim o [
              | inl (x, d', p) ↦ cc
              | inr (d', h) ↦ missing_complete (is_required a) c.ignore_required e h
            ])))
    | inr (v, d) ↦ rw d (
        Outcome-scope {t = validate v (push_path (append "." k) c)} (append "." k) (
          Outcome-map (λ p. inl (v, refl, p))
            (λ o. elim o [
              | inl (x, d', p) ↦ (let same : v ≡ x = cc in rw same p)
              | inr (d', h) ↦ cc
            ])
            (checks v (push_path (append "." k) c) e)))
  ]
