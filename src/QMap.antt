-- ===== src/QMap.antt =====
-- A map with `int` keys as an association list in ascending key order, for the QMap<int, V> of
-- include/hyperion/PriorityMuxer.h.
use hyperion_ng_beta.Prelude.{
  ℤ, List, [], ◌∷◌, map, Option, none, some, Bool, true, false, ltb_ℤ, eqb_ℤ, if◌then◌else◌,
}
pub mod Laws

module _ {ℓ} {V : Type ℓ} where
  unfoldable pub find : ℤ → List (ℤ × V) → Option V
  find k [] = none
  find k ((j, v) ∷ m) = if eqb_ℤ j k then some v else find k m

  abbrev pub is_some : Option V → Bool
  is_some none = false
  is_some (some v) = true

  unfoldable pub contains : ℤ → List (ℤ × V) → Bool
  contains k m = is_some (find k m)

  -- `operator[]` and an assignment to all that it refers to.
  unfoldable pub insert : ℤ → V → List (ℤ × V) → List (ℤ × V)
  insert k v [] = (k, v) ∷ []
  insert k v ((j, w) ∷ m) =
      let rest = insert k v m in
      if eqb_ℤ j k then (k, v) ∷ m else if ltb_ℤ k j then (k, v) ∷ (j, w) ∷ m else (j, w) ∷ rest

  unfoldable pub remove : ℤ → List (ℤ × V) → List (ℤ × V)
  remove k [] = []
  remove k ((j, w) ∷ m) = let rest = remove k m in if eqb_ℤ j k then m else (j, w) ∷ rest

  unfoldable pub keys : List (ℤ × V) → List ℤ
  keys [] = []
  keys ((j, w) ∷ m) = j ∷ keys m
