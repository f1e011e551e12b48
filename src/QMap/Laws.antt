-- ===== src/QMap/Laws.antt =====
-- Laws of the ordered map: lookups after an update, the ascending order of the keys, and
-- predicates on the entries.
use hyperion_ng_beta.Prelude.{
  ℤ, List, [], ◌∷◌, none, some, true, false, ◌≡◌, refl, inl, inr, eqb_ℤ, ltb_ℤ, ltb_ℤ_cases,
  eqb_ℤ_iff, ◌<ℤ◌, if◌then◌else◌, arith, Bool-cases, All, eq_of_parts, subst,
}
use hyperion_ng_beta.QMap.{find, contains, insert, remove}

module _ {ℓ} {V : Type ℓ} where
  -- All keys lie above a bound.
  abbrev pub Above : ℤ → List (ℤ × V) → Type 0
  Above b [] = Unit
  Above b ((j, v) ∷ m) = (b <ℤ j) × Above b m

  abbrev pub IsAscending : List (ℤ × V) → Type 0
  IsAscending [] = Unit
  IsAscending ((j, v) ∷ m) = Above j m × IsAscending m

  pub Above-weaken : (a b : ℤ) (m : List (ℤ × V)) → a <ℤ b → Above b m → Above a m
  Above-weaken a b [] h t = tt
  Above-weaken a b ((j, v) ∷ m) h t = (omega arith, Above-weaken a b m h t.1)

  pub find-Above : (b : ℤ) (m : List (ℤ × V)) → Above b m → find b m ≡ none
  unfolding find
  find-Above b [] h = refl
  find-Above b ((j, v) ∷ m) h = ground (arith, find-Above b m h.1, eqb_ℤ_iff j b)

  insert-Above : (b k : ℤ) (v : V) (m : List (ℤ × V)) → b <ℤ k → Above b m → Above b (insert k v m)
  unfolding insert
  insert-Above b k v [] h t = (h, tt)
  insert-Above b k v ((j, w) ∷ m) h t = ground (arith, insert-Above b k v m h t.1)

  pub insert-IsAscending :
      (k : ℤ) (v : V) (m : List (ℤ × V)) → IsAscending m → IsAscending (insert k v m)
  unfolding insert
  insert-IsAscending k v [] t = (tt, tt)
  insert-IsAscending k v ((j, w) ∷ m) t = ground (
    arith,
    insert-IsAscending k v m t.1,
    insert-Above j k v m,
    Above-weaken k j m,
    ltb_ℤ_cases k j,
    eqb_ℤ_iff j k,
    eq_of_parts j k,
  )

  remove-Above : (b k : ℤ) (m : List (ℤ × V)) → Above b m → Above b (remove k m)
  unfolding remove
  remove-Above b k [] t = tt
  remove-Above b k ((j, w) ∷ m) t = ground (arith, remove-Above b k m t.1)

  pub remove-IsAscending : (k : ℤ) (m : List (ℤ × V)) → IsAscending m → IsAscending (remove k m)
  unfolding remove
  remove-IsAscending k [] t = tt
  remove-IsAscending k ((j, w) ∷ m) t =
      ground (arith, remove-IsAscending k m t.1, remove-Above j k m t.0)

  pub find-insert :
      (j k : ℤ) (v : V) (m : List (ℤ × V))
      → find j (insert k v m) ≡ (if eqb_ℤ k j then some v else find j m)
  unfolding find insert
  find-insert j k v [] = refl
  find-insert j k v ((i, w) ∷ m) =
      ground (arith, find-insert j k v m, eqb_ℤ_iff k j, eqb_ℤ_iff i k, eqb_ℤ_iff i j)

  pub find-remove :
      (j k : ℤ) (m : List (ℤ × V))
      → IsAscending m
      → find j (remove k m) ≡ (if eqb_ℤ k j then none else find j m)
  unfolding find remove
  find-remove j k [] t = ground arith
  find-remove j k ((i, w) ∷ m) t = ground (
    arith,
    find-remove j k m t.1,
    find-Above i m t.0,
    eqb_ℤ_iff k j,
    eqb_ℤ_iff i k,
    eqb_ℤ_iff i j,
  )

  pub contains-insert :
      (j k : ℤ) (v : V) (m : List (ℤ × V))
      → contains j (insert k v m) ≡ (if eqb_ℤ k j then true else contains j m)
  unfolding contains
  contains-insert j k v m = ground (arith, find-insert j k v m)

  pub contains-remove :
      (j k : ℤ) (m : List (ℤ × V))
      → IsAscending m
      → contains j (remove k m) ≡ (if eqb_ℤ k j then false else contains j m)
  unfolding contains
  contains-remove j k m t = ground (arith, find-remove j k m t)

module _ {ℓ κ} {V : Type ℓ} (P : ℤ × V → Type κ) where
  pub All-insert : (k : ℤ) (v : V) (m : List (ℤ × V)) → P (k, v) → All P m → All P (insert k v m)
  unfolding insert
  All-insert k v [] h t = (h, tt)
  All-insert k v ((j, w) ∷ m) h t = elim (Bool-cases (eqb_ℤ j k)) [
    | inl e ↦ rw e (h, t.1)
    | inr e ↦ rw e (elim (Bool-cases (ltb_ℤ k j)) [
      | inl l ↦ rw l (h, t)
      | inr l ↦ rw l (t.0, All-insert k v m h t.1)
    ])
  ]

  pub All-remove : (k : ℤ) (m : List (ℤ × V)) → All P m → All P (remove k m)
  unfolding remove
  All-remove k [] t = tt
  All-remove k ((j, w) ∷ m) t = elim (Bool-cases (eqb_ℤ j k)) [
    | inl e ↦ rw e t.1
    | inr e ↦ rw e (t.0, All-remove k m t.1)
  ]

  -- What holds of every entry holds of the one that a lookup finds.
  pub All-find : (k : ℤ) {v : V} (m : List (ℤ × V)) → find k m ≡ some v → All P m → P (k, v)
  unfolding find
  All-find k [] e t = cc
  All-find k {v} ((j, w) ∷ m) e t = elim (Bool-cases (eqb_ℤ j k)) [
    | inl h ↦ subst P (ground (arith, eqb_ℤ_iff j k)) t.0
    | inr h ↦ All-find k m (rw h at e) t.1
  ]
