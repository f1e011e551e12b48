-- ===== src/Schema/Sound/Types.antt =====
-- The check of the attribute `type`.
use Prim.Native.String.{String}
use hyperion_ng_beta.Prelude.{Bool, true, false, not, ◌≡◌, refl}
use hyperion_ng_beta.Schema.Json.{Json, null, bool, num, str, arr, obj, Numbers, to_string}
use hyperion_ng_beta.Schema.Checker.{
  Checker, TypeName, type_name, wrong_type, check_type, is_string, is_double,
}
use hyperion_ng_beta.Schema.Conforms.{IsOfType}
use hyperion_ng_beta.Schema.Outcome.{Outcome, Outcome-test}

not-false : (b : Bool) → not b ≡ false → b ≡ true
not-false true h = refl
not-false false h = cc

not-true : (b : Bool) → b ≡ true → not b ≡ false
not-true true h = refl
not-true false h = cc

module _ {D : Type 0} where
  is_string_sound : (v : Json D) → not (is_string v) ≡ false → (s : String) × (v ≡ str s)
  unfolding is_string
  is_string_sound (str s) h = (s, refl)
  is_string_sound _ h = cc

  is_double_sound : (v : Json D) → not (is_double v) ≡ false → (x : D) × (v ≡ num x)
  unfolding is_double
  is_double_sound (num x) h = (x, refl)
  is_double_sound _ h = cc

module _ {D : Type 0} (f : Numbers D) where
  pub wrong_type_sound : (t : TypeName) (v : Json D) → wrong_type f t v ≡ false → IsOfType f t v
  unfolding wrong_type
  wrong_type_sound TypeName.string_ v h = is_string_sound v h
  wrong_type_sound TypeName.number v h = is_double_sound v h
  wrong_type_sound TypeName.integer v h = not-false _ h
  wrong_type_sound TypeName.double v h = is_double_sound v h
  wrong_type_sound TypeName.boolean (bool b) h = (b, refl)
  wrong_type_sound TypeName.boolean _ h = cc
  wrong_type_sound TypeName.object (obj fs) h = (fs, refl)
  wrong_type_sound TypeName.object _ h = cc
  wrong_type_sound TypeName.array (arr vs) h = (vs, refl)
  wrong_type_sound TypeName.array _ h = cc
  wrong_type_sound TypeName.null_ null h = refl
  wrong_type_sound TypeName.null_ _ h = cc
  wrong_type_sound TypeName.enum_ v h = is_string_sound v h
  wrong_type_sound TypeName.any v h = tt
  wrong_type_sound TypeName.other v h = tt

  pub wrong_type_complete : (t : TypeName) (v : Json D) → IsOfType f t v → wrong_type f t v ≡ false
  unfolding wrong_type
  wrong_type_complete TypeName.string_ v (s, e) = rw e
  wrong_type_complete TypeName.number v (x, e) = rw e
  wrong_type_complete TypeName.integer v h = not-true _ h
  wrong_type_complete TypeName.double v (x, e) = rw e
  wrong_type_complete TypeName.boolean v (b, e) = rw e
  wrong_type_complete TypeName.object v (fs, e) = rw e
  wrong_type_complete TypeName.array v (vs, e) = rw e
  wrong_type_complete TypeName.null_ v e = rw e
  wrong_type_complete TypeName.enum_ v (s, e) = rw e
  wrong_type_complete TypeName.any v h = refl
  wrong_type_complete TypeName.other v h = refl

  pub check_type-Outcome :
      (v a : Json D) (c : Checker)
      → Outcome (IsOfType f (type_name (to_string a)) v) c (check_type f v a c)
  unfolding check_type
  check_type-Outcome v a c =
      Outcome-test _ _ c (wrong_type_sound (type_name (to_string a)) v)
        (wrong_type_complete (type_name (to_string a)) v)
