-- ===== src/Adjust/Weights.antt =====
-- The eight corner weights of a color (MultiColorAdjustment.cpp) share out its channels.
use hyperion_ng_beta.Prelude.{ℕ, ◌+◌, ◌-◌, ◌*◌, ◌<◌, ◌≤◌, ◌≡◌, ap, arith}
use hyperion_ng_beta.Color.{ColorRgb, IsByteColor}
use hyperion_ng_beta.Adjust.Multi.{Corners, corners}

abbrev pub total : Corners → ℕ
total w = w.black + w.red + w.green + w.blue + w.cyan + w.magenta + w.yellow + w.white

-- A product, split along a byte and its complement.
split : (x c : ℕ) → c < 256 → x * (255 - c) + x * c ≡ x * 255
split x c h =
    let e : 255 - c + c ≡ 255 = omega arith in
    let m : x * (255 - c + c) ≡ x * 255 = ap (λ (t : ℕ). x * t) e in omega (arith, m)

module _ (o : ColorRgb) (h : IsByteColor o) where
  -- The four products of red and green.
  rg_total :
      (255 - o.red) * (255 - o.green)
        + o.red * (255 - o.green)
        + (255 - o.red) * o.green
        + o.red * o.green
      ≡ 65025
  rg_total = omega (arith, split (255 - o.red) o.green h.1, split o.red o.green h.1)

  red_total : o.red * (255 - o.green) + o.red * o.green ≡ o.red * 255
  red_total = split o.red o.green h.1

  green_total : (255 - o.red) * o.green + o.red * o.green ≡ o.green * 255
  green_total =
      let e : 255 - o.red + o.red ≡ 255 = omega (arith, h.0) in
      let m : (255 - o.red + o.red) * o.green ≡ 255 * o.green = ap (λ (t : ℕ). t * o.green) e in
      omega (arith, m)

  -- All weights together.
  pub total-corners : total (corners o) ≤ 255
  unfolding corners
  total-corners = omega (
    arith,
    rg_total,
    split ((255 - o.red) * (255 - o.green)) o.blue h.2,
    split (o.red * (255 - o.green)) o.blue h.2,
    split ((255 - o.red) * o.green) o.blue h.2,
    split (o.red * o.green) o.blue h.2,
  )

  -- The weights of the corners that contain a channel give the channel back, up to the rounding.
  pub corners_red :
      let w = corners o in
      (w.red + w.magenta + w.yellow + w.white ≤ o.red)
      × (o.red ≤ w.red + w.magenta + w.yellow + w.white + 3)
  unfolding corners
  corners_red = (
    omega (
      arith,
      red_total,
      split (o.red * (255 - o.green)) o.blue h.2,
      split (o.red * o.green) o.blue h.2,
    ),
    omega (
      arith,
      red_total,
      split (o.red * (255 - o.green)) o.blue h.2,
      split (o.red * o.green) o.blue h.2,
    ),
  )

  pub corners_green :
      let w = corners o in
      (w.green + w.cyan + w.yellow + w.white ≤ o.green)
      × (o.green ≤ w.green + w.cyan + w.yellow + w.white + 3)
  unfolding corners
  corners_green = (
    omega (
      arith,
      green_total,
      split ((255 - o.red) * o.green) o.blue h.2,
      split (o.red * o.green) o.blue h.2,
    ),
    omega (
      arith,
      green_total,
      split ((255 - o.red) * o.green) o.blue h.2,
      split (o.red * o.green) o.blue h.2,
    ),
  )

  -- Blue: the four corner weights sum to blue * 65025 / 65025.
  blue_total :
      (255 - o.red) * (255 - o.green) * o.blue
        + o.red * (255 - o.green) * o.blue
        + (255 - o.red) * o.green * o.blue
        + o.red * o.green * o.blue
      ≡ 65025 * o.blue
  blue_total = let m = ap (λ (t : ℕ). t * o.blue) rg_total in omega (arith, m)

  pub corners_blue :
      let w = corners o in
      (w.blue + w.cyan + w.magenta + w.white ≤ o.blue)
      × (o.blue ≤ w.blue + w.cyan + w.magenta + w.white + 3)
  unfolding corners
  corners_blue = (omega (arith, blue_total), omega (arith, blue_total))
