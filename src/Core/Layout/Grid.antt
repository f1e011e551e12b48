-- ===== src/Core/Layout/Grid.antt =====
-- The size of the grid of the leds that libsrc/hyperion/Hyperion.cpp computes of the configuration.
use hyperion_ng_beta.Prelude.{
  ℕ, ℤ, pos, negsuc, ◌≡◌, ◌<◌, ◌≤◌, refl, ◌∙◌, arith, Bool, true, false, ◌||◌, leb, ◌==◌, ltb_ℤ,
  List, [], ◌∷◌, length, Bool-cases, inl, inr, ◌⊎◌,
}
use hyperion_ng_beta.Leds.Led.{Fractions}
use hyperion_ng_beta.Core.Config.{
  LedConfig, Scans, Sorts, ends, mid_points, insert_sorted, sort_numbers, unique_after, unique,
  get_led_layout_grid_size,
}
use hyperion_ng_beta.Prelude.{◌<ℤ◌, ◌≤ℤ◌}
use hyperion_ng_beta.Core.Layout.Scan.{IsScan, ends-IsScan}

-- Whether a number is in a list.
abbrev pub member : ℕ → List ℕ → Bool
member n [] = false
member n (m ∷ l) = (n == m) || member n l

-- Every element is above `n`, and the elements ascend.
abbrev pub AscendsFrom : ℕ → List ℕ → Type 0
AscendsFrom n [] = Unit
AscendsFrom n (m ∷ l) = (n < m) × AscendsFrom m l

abbrev pub Ascends : List ℕ → Type 0
Ascends [] = Unit
Ascends (n ∷ l) = AscendsFrom n l

abbrev Sorted : ℕ → List ℕ → Type 0
Sorted n [] = Unit
Sorted n (m ∷ l) = (n ≤ m) × Sorted m l

abbrev IsSorted : List ℕ → Type 0
IsSorted [] = Unit
IsSorted (n ∷ l) = Sorted n l

insert_sorted-Sorted : (b n : ℕ) (l : List ℕ) → b ≤ n → Sorted b l → Sorted b (insert_sorted n l)
unfolding insert_sorted
insert_sorted-Sorted b n [] h k = (h, tt)
insert_sorted-Sorted b n (m ∷ l) h k = elim (Bool-cases (leb n m)) [
  | inl e ↦ rw e (h, (ground arith, k.1))
  | inr e ↦ rw e (k.0, insert_sorted-Sorted m n l (ground arith) k.1)
]

insert_sorted-IsSorted : (n : ℕ) (l : List ℕ) → IsSorted l → IsSorted (insert_sorted n l)
unfolding insert_sorted
insert_sorted-IsSorted n [] k = tt
insert_sorted-IsSorted n (m ∷ l) k = elim (Bool-cases (leb n m)) [
  | inl e ↦ rw e (ground arith, k)
  | inr e ↦ rw e (insert_sorted-Sorted m n l (ground arith) k)
]

sort_numbers-IsSorted : (l : List ℕ) → IsSorted (sort_numbers l)
unfolding sort_numbers
sort_numbers-IsSorted [] = tt
sort_numbers-IsSorted (n ∷ l) = insert_sorted-IsSorted n (sort_numbers l) (sort_numbers-IsSorted l)

member-insert_sorted :
    (k n : ℕ) (l : List ℕ) → member k (insert_sorted n l) ≡ ((k == n) || member k l)
unfolding insert_sorted
member-insert_sorted k n [] = refl
member-insert_sorted k n (m ∷ l) = ground (arith, member-insert_sorted k n l)

member-sort_numbers : (k : ℕ) (l : List ℕ) → member k (sort_numbers l) ≡ member k l
unfolding sort_numbers
member-sort_numbers k [] = refl
member-sort_numbers k (n ∷ l) =
    ground (arith, member-insert_sorted k n (sort_numbers l), member-sort_numbers k l)

unique_after_lem :
    (n : ℕ) (l : List ℕ)
    → Sorted n l
    → AscendsFrom n (unique_after n l)
      × ((k : ℕ) → ((k == n) || member k (unique_after n l)) ≡ ((k == n) || member k l))
unfolding unique_after
unique_after_lem n [] h = (tt, λ k. refl)
unique_after_lem n (m ∷ l) h =
    let (asc, same) = unique_after_lem m l h.1 in
    elim (Bool-cases (n == m)) [
      | inl e ↦
          let eq : m ≡ n = ground arith in rw e ((rw⁻¹ eq asc), λ k. ground (arith, eq, same k))
      | inr e ↦ rw e ((ground arith, asc), λ k. ground (arith, same k))
    ]

unique_lem :
    (l : List ℕ) → IsSorted l → Ascends (unique l) × ((k : ℕ) → member k (unique l) ≡ member k l)
unfolding unique
unique_lem [] h = (tt, λ k. refl)
unique_lem (n ∷ l) h = unique_after_lem n l h

-- The distinct numbers of a list, in ascending order, and how many they are.
abbrev pub Counts : List ℕ → ℕ → Type 0
Counts l n = (d : List ℕ) × (length d ≡ n) × Ascends d × ((k : ℕ) → member k d ≡ member k l)

Counts-unique : (l : List ℕ) → Counts l (length (unique (sort_numbers l)))
Counts-unique l =
    let (asc, same) = unique_lem (sort_numbers l) (sort_numbers-IsSorted l) in
    (unique (sort_numbers l), refl, asc, λ k. same k ∙ member-sort_numbers k l)

module _ (f : Fractions) (s : Scans f) where
  -- The mid points along an axis of the entries whose clone index is negative, in their order; the
  -- ends of the scan of an entry are `a` and `b`.
  pub data IsMids (a b : LedConfig s.Raw → s.Raw) : List (LedConfig s.Raw) → List ℕ → Type 0 where
    none_left : IsMids a b [] []
    counted :
        {c : LedConfig s.Raw} {cs : List (LedConfig s.Raw)} {ms : List ℕ}
        → c.clone <ℤ pos 0
        → (x : f.Frac × f.Frac) → IsScan f s (a c) (b c) x
        → IsMids a b cs ms
        → IsMids a b (c ∷ cs) (s.mid_point x.0 x.1 ∷ ms)
    skipped :
        {c : LedConfig s.Raw} {cs : List (LedConfig s.Raw)} {ms : List ℕ}
        → pos 0 ≤ℤ c.clone
        → IsMids a b cs ms
        → IsMids a b (c ∷ cs) ms

  clone-cases :
      (c : ℤ)
      → ((ltb_ℤ c (pos 0) ≡ true) × (c <ℤ pos 0)) ⊎ ((ltb_ℤ c (pos 0) ≡ false) × (pos 0 ≤ℤ c))
  unfolding ltb_ℤ
  clone-cases (pos n) = inr (ground arith, ground arith)
  clone-cases (negsuc n) = inl (ground arith, ground arith)

  module _ (r : Sorts f) where
    mid_points-IsMids :
        (a b : LedConfig s.Raw → s.Raw) (cs : List (LedConfig s.Raw))
        → IsMids a b cs (mid_points f s r (λ c. ends f s r (a c) (b c)) cs)
    unfolding mid_points
    mid_points-IsMids a b [] = none_left
    mid_points-IsMids a b (c ∷ cs) = elim (clone-cases c.clone) [
      | inl (test, negative) ↦ rw test (
          counted negative (ends f s r (a c) (b c)) (ends-IsScan f s r (a c) (b c))
            (mid_points-IsMids a b cs))
      | inr (test, named) ↦ rw test (skipped named (mid_points-IsMids a b cs))
    ]

  -- The size of the grid is, along each axis, the number of distinct mid points of the entries of
  -- the configuration whose clone index is negative; an entry with a clone index out of range,
  -- which becomes a led of its own, is not counted. The mid point is that of the clamped ends of
  -- the scan in order.
  pub get_led_layout_grid_size_lem :
      (r : Sorts f) (cs : List (LedConfig s.Raw))
      → (xs : List ℕ) × (ys : List ℕ) × IsMids (λ c. c.hscan_minimum) (λ c. c.hscan_maximum) cs xs
        × IsMids (λ c. c.vscan_minimum) (λ c. c.vscan_maximum) cs ys
        × Counts xs (get_led_layout_grid_size f s r cs).0
        × Counts ys (get_led_layout_grid_size f s r cs).1
  unfolding get_led_layout_grid_size
  get_led_layout_grid_size_lem r cs = (
    _,
    _,
    mid_points-IsMids r (λ c. c.hscan_minimum) (λ c. c.hscan_maximum) cs,
    mid_points-IsMids r (λ c. c.vscan_minimum) (λ c. c.vscan_maximum) cs,
    Counts-unique _,
    Counts-unique _,
  )
