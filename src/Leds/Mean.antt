-- ===== src/Leds/Mean.antt =====
-- The color of a led is the mean of its pixels (ImageToLedsMap.h).
use native.Mathlib.Nat.{mod-eq_of_lt, add_assoc, zero-add}
use hyperion_ng_beta.Prelude.{
  ℕ, zero, suc, ◌+◌, ◌*◌, ◌/◌, ◌<◌, ◌≤◌, ◌≡◌, refl, List, [], ◌∷◌, some, All, arith, length,
  get_elem?, get_or, get_elem?-get_or, map, ap, ◌⊎◌, inl, inr,
}
use hyperion_ng_beta.Color.{ColorRgb, IsByteColor, black}
use hyperion_ng_beta.Image.{Image, pixel_at}
use hyperion_ng_beta.Leds.ImageToLedsMap.{
  Sums, no_sums, add_pixel, sum_colors, average, calc_mean_color,
}

-- Every pixel of the picture is a color of bytes.
abbrev pub HasBytes : Image → Type 0
HasBytes i = All IsByteColor i.pixels

-- The pixels at a list of offsets.
pub data Pixels (i : Image) : List ℕ → List ColorRgb → Type 0 where
  none_left : Pixels i [] []
  next :
      {o : ℕ} {os : List ℕ} (c : ColorRgb) {cs : List ColorRgb}
      → pixel_at i o ≡ some c
      → IsByteColor c
      → Pixels i os cs
      → Pixels i (o ∷ os) (c ∷ cs)

pixel_byte :
    (l : List ColorRgb) (o : ℕ) {c : ColorRgb}
    → All IsByteColor l
    → get_elem? l o ≡ some c
    → IsByteColor c
pixel_byte [] o h e = cc
pixel_byte (x ∷ l) zero h e = ground (arith, h.0)
pixel_byte (x ∷ l) (suc o) h e = pixel_byte l o h.1 e

-- The pixels at a list of offsets, in their order.
abbrev pub pixels_of : Image → List ℕ → List ColorRgb
pixels_of i os = map (λ o. get_or i.pixels o black) os

pixels_of-Pixels :
    (i : Image) (os : List ℕ)
    → HasBytes i
    → All (λ o. o < length i.pixels) os
    → Pixels i os (pixels_of i os)
unfolding pixel_at
pixels_of-Pixels i [] b h = none_left
pixels_of-Pixels i (o ∷ os) b h =
    let e = get_elem?-get_or i.pixels o black h.0 in
    next (get_or i.pixels o black) e (pixel_byte i.pixels o b e) (pixels_of-Pixels i os b h.1)

length-Pixels :
    (i : Image) {os : List ℕ} {cs : List ColorRgb} → Pixels i os cs → length os ≡ length cs
length-Pixels i none_left = refl
length-Pixels i (next c e b r) = ap suc (length-Pixels i r)

-- The true sums, which do not wrap.
abbrev pub reds : List ColorRgb → ℕ
reds [] = 0
reds (c ∷ cs) = c.red + reds cs

abbrev pub greens : List ColorRgb → ℕ
greens [] = 0
greens (c ∷ cs) = c.green + greens cs

abbrev pub blues : List ColorRgb → ℕ
blues [] = 0
blues (c ∷ cs) = c.blue + blues cs

add_pixel_small :
    (modulus : ℕ) (s : Sums) (c : ColorRgb)
    → s.red + c.red < modulus
    → s.green + c.green < modulus
    → s.blue + c.blue < modulus
    → add_pixel modulus s c
      ≡ record { red = s.red + c.red; green = s.green + c.green; blue = s.blue + c.blue }
unfolding add_pixel
add_pixel_small modulus s c p q r = rw (mod-eq_of_lt p, mod-eq_of_lt q, mod-eq_of_lt r)

module _ (i : Image) where
  sums-le :
      {os : List ℕ} {cs : List ColorRgb}
      → Pixels i os cs
      → (reds cs ≤ 255 * length cs) × (greens cs ≤ 255 * length cs) × (blues cs ≤ 255 * length cs)
  sums-le none_left = (omega arith, omega arith, omega arith)
  sums-le (next c e b r) =
      let (x, y, z) = sums-le r in
      (omega (arith, x, b.0), omega (arith, y, b.1), omega (arith, z, b.2))

  sum_colors_lem :
      (modulus : ℕ) {os : List ℕ} {cs : List ColorRgb} (s : Sums)
      → Pixels i os cs
      → s.red + reds cs < modulus
      → s.green + greens cs < modulus
      → s.blue + blues cs < modulus
      → sum_colors modulus i os s
        ≡ some (record {
          red = s.red + reds cs;
          green = s.green + greens cs;
          blue = s.blue + blues cs;
        })
  unfolding sum_colors
  sum_colors_lem modulus s none_left p q r = ground arith
  sum_colors_lem modulus s (next c {cs = cs} e b rest) p q r =
      let t : Sums = record {
        red = s.red + c.red;
        green = s.green + c.green;
        blue = s.blue + c.blue;
      } in
      rw
        (
          e,
          add_pixel_small modulus s c (omega (arith, b.0)) (omega (arith, b.1))
              (omega (arith, b.2)),
        )
        (rw (
          sum_colors_lem modulus t rest (omega (arith, b.0)) (omega (arith, b.1))
              (omega (arith, b.2)),
          add_assoc s.red c.red (reds cs),
          add_assoc s.green c.green (greens cs),
          add_assoc s.blue c.blue (blues cs),
        ))

  sum_colors_all :
      (modulus : ℕ) {os : List ℕ} {cs : List ColorRgb}
      → Pixels i os cs
      → reds cs < modulus
      → greens cs < modulus
      → blues cs < modulus
      → sum_colors modulus i os no_sums
        ≡ some (record { red = reds cs; green = greens cs; blue = blues cs })
  sum_colors_all modulus {cs = cs} r x y z = rw (
    sum_colors_lem modulus no_sums r (omega arith) (omega arith) (omega arith),
    zero-add (reds cs),
    zero-add (greens cs),
    zero-add (blues cs),
  )

  mean-le : (n s : ℕ) → 0 < n → s ≤ 255 * n → s / n ≤ 255
  mean-le n s p h = grind arith

-- The color is the mean of the listed colors: each channel the sum divided by their number, rounded
-- down.
abbrev pub IsMean : List ColorRgb → ColorRgb → Type 0
IsMean cs c =
    (c.red ≡ reds cs / length cs)
    × (c.green ≡ greens cs / length cs)
    × (c.blue ≡ blues cs / length cs)

average-IsMean :
    (i : Image) {os : List ℕ} {cs : List ColorRgb} (n : ℕ)
    → Pixels i os cs
    → n ≡ length cs
    → 0 < n
    → IsMean cs (average n (record { red = reds cs; green = greens cs; blue = blues cs }))
unfolding average
average-IsMean i {cs = cs} n r e p =
    let (x, y, z) = sums-le i r in
    (
      rw e (omega (arith, mean-le i (length cs) (reds cs) (omega arith) x)),
      rw e (omega (arith, mean-le i (length cs) (greens cs) (omega arith) y)),
      rw e (omega (arith, mean-le i (length cs) (blues cs) (omega arith) z)),
    )

-- For a led whose offsets lie in a picture of bytes, and whose pixels have sums of the channels
-- that fit into the accumulators, the color is the mean of the pixels, each channel rounded down;
-- a led with no pixels is black.
pub calc_mean_color-IsMean :
    (modulus : ℕ) (i : Image) (os : List ℕ)
    → HasBytes i
    → All (λ o. o < length i.pixels) os
    → reds (pixels_of i os) < modulus
    → greens (pixels_of i os) < modulus
    → blues (pixels_of i os) < modulus
    → (c : ColorRgb) × (calc_mean_color modulus i os ≡ some c)
      × (((os ≡ []) × (c ≡ black)) ⊎ ((0 < length os) × IsMean (pixels_of i os) c))
unfolding calc_mean_color
calc_mean_color-IsMean modulus i [] b h x y z = (black, refl, inl (refl, refl))
calc_mean_color-IsMean modulus i (o ∷ os) b h x y z =
    let r = pixels_of-Pixels i (o ∷ os) b h in
    let cs = pixels_of i (o ∷ os) in
    (
      average (length (o ∷ os)) (record { red = reds cs; green = greens cs; blue = blues cs }),
      rw (sum_colors_all i modulus r x y z) refl,
      inr (omega arith, average-IsMean i (length (o ∷ os)) r (length-Pixels i r) (omega arith)),
    )
