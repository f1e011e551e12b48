-- ===== src/Wire/Buffer.antt =====
-- The led buffer of `Hyperion::update` (libsrc/hyperion/Hyperion.cpp): its cloned leds, its byte order
-- and its size.
use Prim.Native.Nat.{max}
use hyperion_ng_beta.Prelude.{
  ℕ, zero, suc, pos, ◌+◌, ◌-◌, ◌≡◌, ◌≤◌, ◌<◌, refl, ap, arith, List, [], ◌∷◌, map, get_elem?-some,
  length, length-append, length-replicate, length-map, replicate, Gives, ◌⊎◌, inl, inr,
}
use hyperion_ng_beta.Color.{ColorRgb, black}
use hyperion_ng_beta.Leds.Led.{ColorOrder, Fractions, Led}
use hyperion_ng_beta.Wire.{
  reorder, reorder_all, insert_at, at_index, insert_clones, insert_orders, color_orders, pad_black,
}

insert_at-Gives {ℓ} :
    {A : Type ℓ} (i : ℕ) (a : A) (l : List A)
    → i ≤ length l
    → Gives (λ r. length r ≡ length l + 1) (insert_at i a l)
unfolding insert_at
insert_at-Gives zero a l h = (_, refl, omega arith)
insert_at-Gives (suc i) a [] h = absurd (omega arith)
insert_at-Gives (suc i) a (x ∷ l) h =
    let (r, e, n) = insert_at-Gives i a l (omega arith) in (x ∷ r, rw e refl, omega (arith, n))

pub reorder_all-Gives :
    (orders : List ColorOrder) (colors : List ColorRgb)
    → length colors ≤ length orders
    → Gives (λ r. length r ≡ length colors) (reorder_all orders colors)
unfolding reorder_all
reorder_all-Gives [] [] h = ([], refl, refl)
reorder_all-Gives (o ∷ orders) [] h = ([], refl, refl)
reorder_all-Gives [] (c ∷ colors) h = absurd (omega arith)
reorder_all-Gives (o ∷ orders) (c ∷ colors) h =
    let (r, e, n) = reorder_all-Gives orders colors (omega arith) in
    (reorder o c ∷ r, rw e refl, ap suc n)

pub length-pad_black : (n : ℕ) (l : List ColorRgb) → length (pad_black n l) ≡ max n (length l)
unfolding pad_black
length-pad_black n l =
    ground (
      arith,
      length-append l (replicate (n - length l) black),
      length-replicate (n - length l) black,
    )

module _ (f : Fractions) where
  -- The cloned leds can be inserted one after another into a buffer of `n` colors.
  abbrev pub IsPlaced : ℕ → List (Led f) → Type 0
  IsPlaced n [] = Unit
  IsPlaced n (led ∷ leds) =
      (led.index ≤ n) × ((c : ℕ) × (led.clone ≡ pos c) × (c < n)) × IsPlaced (n + 1) leds

  pub insert_clones-Gives :
      (leds : List (Led f)) (n : ℕ) (l : List ColorRgb)
      → length l ≡ n
      → IsPlaced n leds
      → Gives (λ r. length r ≡ n + length leds) (insert_clones f leds l)
  unfolding insert_clones at_index
  insert_clones-Gives [] n l e p = (l, refl, omega (arith, e))
  insert_clones-Gives (led ∷ leds) n l e (i, (c, ec, lc), p) =
      let (color, ecolor) = get_elem?-some l c (omega (arith, e, lc)) in
      let (r, er, nr) = insert_at-Gives led.index color l (omega (arith, e, i)) in
      let (q, eq, nq) = insert_clones-Gives leds (n + 1) r (omega (arith, nr, e)) p in
      (q, rw (ec, ecolor, er) eq, omega (arith, nq))

  insert_orders-Gives :
      (leds : List (Led f)) (n : ℕ) (l : List ColorOrder)
      → length l ≡ n
      → IsPlaced n leds
      → Gives (λ r. length r ≡ n + length leds) (insert_orders f leds l)
  unfolding insert_orders
  insert_orders-Gives [] n l e p = (l, refl, omega (arith, e))
  insert_orders-Gives (led ∷ leds) n l e (i, c, p) =
      let (r, er, nr) = insert_at-Gives led.index led.color_order l (omega (arith, e, i)) in
      let (q, eq, nq) = insert_orders-Gives leds (n + 1) r (omega (arith, nr, e)) p in
      (q, rw er eq, omega (arith, nq))

  pub color_orders-Gives :
      (leds clones : List (Led f)) (l : List ColorOrder)
      → IsPlaced (length leds) clones
      → (length l ≡ 0) ⊎ (length l ≡ length leds + length clones)
      → Gives (λ r. length r ≡ length leds + length clones) (color_orders f leds clones l)
  unfolding color_orders
  color_orders-Gives leds clones [] p h =
      insert_orders-Gives clones (length leds) (map (λ (l : Led f). l.color_order) leds)
        (length-map leds (λ (l : Led f). l.color_order)) p
  color_orders-Gives leds clones (o ∷ l) p (inl h) = absurd (omega (arith, h))
  color_orders-Gives leds clones (o ∷ l) p (inr h) = (o ∷ l, refl, h)
