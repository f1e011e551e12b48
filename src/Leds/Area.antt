-- ===== src/Leds/Area.antt =====
-- The pixels of a led lie in the picture, and a led with an area has some (ImageToLedsMap.cpp).
use Prim.Native.Nat.{min}
use hyperion_ng_beta.Prelude.{
  ℕ, zero, suc, ◌+◌, ◌-◌, ◌*◌, ◌<◌, ◌≤◌, ◌≡◌, ◌≢◌, refl, ◌⊎◌, inl, inr, ◌↔◌, true, false, ◌||◌, All,
  All-append, arith, u32, Bool-cases, length, length-append,
}
use hyperion_ng_beta.Leds.Led.{Fractions, Led}
use hyperion_ng_beta.Leds.ImageToLedsMap.{
  row_offsets, rect_offsets, first_idx, last_idx, led_offsets,
}

row_in_picture : (x y w h : ℕ) → x < w → y < h → y * w + x < w * h
row_in_picture x y w h p q = grind arith

row_offsets-inside :
    (w h y x n : ℕ) → w * h < u32 → y < h → x + n ≤ w → All (λ o. o < w * h) (row_offsets w y x n)
unfolding row_offsets
row_offsets-inside w h y x zero s p q = tt
row_offsets-inside w h y x (suc n) s p q = (
  omega (arith, row_in_picture x y w h (omega arith) p),
  row_offsets-inside w h y (x + 1) n s p (omega arith),
)

rect_offsets-inside :
    (w h x n y m : ℕ)
    → w * h < u32
    → y + m ≤ h
    → x + n ≤ w
    → All (λ o. o < w * h) (rect_offsets w x n y m)
unfolding rect_offsets
rect_offsets-inside w h x n y zero s p q = tt
rect_offsets-inside w h x n y (suc m) s p q =
    All-append (λ o. o < w * h) (row_offsets w y x n) _
      (row_offsets-inside w h y x n s (omega arith) q)
      (rect_offsets-inside w h x n (y + 1) m s (omega arith) q)

length-row_offsets : (w y x n : ℕ) → length (row_offsets w y x n) ≡ n
unfolding row_offsets
length-row_offsets w y x zero = refl
length-row_offsets w y x (suc n) = omega (arith, length-row_offsets w y (x + 1) n)

length-rect_offsets : (w x n y m : ℕ) → length (rect_offsets w x n y m) ≡ m * n
unfolding rect_offsets
length-rect_offsets w x n y zero = omega arith
length-rect_offsets w x n y (suc m) = omega (
  arith,
  length-append (row_offsets w y x n) (rect_offsets w x n (y + 1) m),
  length-row_offsets w y x n,
  length-rect_offsets w x n (y + 1) m,
)

-- Along one axis the indices stay inside, and there is at least one.
axis :
    (offset size lo hi : ℕ)
    → 0 < size
    → lo ≤ hi
    → hi ≤ size
    → let first = first_idx offset size lo in
      let last = min (last_idx offset size lo hi) (offset + size) in
      (first + (last - first) ≤ offset + size) × (0 < last - first) × (offset ≤ first)
unfolding first_idx last_idx
axis offset size lo hi p q r = ground arith

some_pixels : (n m : ℕ) → 0 < n → 0 < m → m * n ≢ 0
some_pixels n m p q e = grind arith

module _ (f : Fractions) where
  -- For borders that leave some of the picture, every pixel of a led is a pixel of the picture,
  -- and a led has no pixel only if its area is tiny.
  pub led_offsets_lem :
      (width height horizontal_border vertical_border : ℕ) (led : Led f)
      → 2 * vertical_border < width
      → 2 * horizontal_border < height
      → width * height < u32
      → let offsets = led_offsets f width height horizontal_border vertical_border led in
        All (λ o. o < width * height) offsets
        × ((length offsets ≡ 0) ↔ (
            (f.tiny led.min_x_frac led.max_x_frac ≡ true)
            ⊎ (f.tiny led.min_y_frac led.max_y_frac ≡ true)))
  unfolding led_offsets
  led_offsets_lem w h hb vb led p q s =
      elim (Bool-cases
        (f.tiny led.min_x_frac led.max_x_frac || f.tiny led.min_y_frac led.max_y_frac)) [
          | inl tiny ↦ rw tiny (tt, ((λ e. ground arith), (λ e. refl)))
          | inr wide ↦
              let tx : f.tiny led.min_x_frac led.max_x_frac ≡ false = ground arith in
              let ty : f.tiny led.min_y_frac led.max_y_frac ≡ false = ground arith in
              let (inx, posx, _) =
                axis vb (w - 2 * vb) (f.scale (w - 2 * vb) led.min_x_frac)
                  (f.scale (w - 2 * vb) led.max_x_frac) (omega arith) (f.scale-mono _ _ _ tx)
                  (f.scale-le _ _) in
              let (iny, posy, _) =
                axis hb (h - 2 * hb) (f.scale (h - 2 * hb) led.min_y_frac)
                  (f.scale (h - 2 * hb) led.max_y_frac) (omega arith) (f.scale-mono _ _ _ ty)
                  (f.scale-le _ _) in
              rw wide (
                rect_offsets-inside w h _ _ _ _ s (omega (arith, iny)) (omega (arith, inx)),
                (
                  (λ e. absurd (
                      some_pixels _ _ posx posy (omega (arith, length-rect_offsets w _ _ _ _, e)))),
                  (λ e. absurd (ground arith)),
                ),
              )
        ]
