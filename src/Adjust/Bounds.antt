-- ===== src/Adjust/Bounds.antt =====
-- The adjusted color of one led (MultiColorAdjustment.cpp): the eight adjusted corners fit into a byte,
-- and the default corners give the transformed color back.
use hyperion_ng_beta.Prelude.{ℕ, ◌+◌, ◌<◌, ◌≤◌, ◌≡◌, arith}
use hyperion_ng_beta.Color.{ColorRgb, IsByteColor}
use hyperion_ng_beta.Adjust.Doubles.{Doubles}
use hyperion_ng_beta.Adjust.Channel.{
  RgbChannelAdjustment, IsFilled, linear, linear-le, linear_identity, linear_zero, get_adjustment_r,
  get_adjustment_g, get_adjustment_b,
}
use hyperion_ng_beta.Adjust.Transform
use hyperion_ng_beta.Adjust.Transform.{transform, transform-IsByteColor}
use hyperion_ng_beta.Adjust.Multi.{ColorAdjustment, Corners, corners, blend, adjust_color}
use hyperion_ng_beta.Adjust.Weights.{total-corners, corners_red, corners_green, corners_blue, total}

module _ (d : Doubles) where
  -- The tables of an adjustment are filled.
  pub record IsReady (a : ColorAdjustment d) : Type 0 where
    pub black : IsFilled a.black
    pub white : IsFilled a.white
    pub red : IsFilled a.red
    pub green : IsFilled a.green
    pub blue : IsFilled a.blue
    pub cyan : IsFilled a.cyan
    pub magenta : IsFilled a.magenta
    pub yellow : IsFilled a.yellow
    pub gamma : Transform.IsFilled d a.rgb_transform

  entry_r-le : (a : RgbChannelAdjustment) (i : ℕ) → IsFilled a → i < 256 → get_adjustment_r a i ≤ i
  entry_r-le a i f h = omega (arith, f.is_r i h, linear-le a.adjust_r i f.bytes.0)

  entry_g-le : (a : RgbChannelAdjustment) (i : ℕ) → IsFilled a → i < 256 → get_adjustment_g a i ≤ i
  entry_g-le a i f h = omega (arith, f.is_g i h, linear-le a.adjust_g i f.bytes.1)

  entry_b-le : (a : RgbChannelAdjustment) (i : ℕ) → IsFilled a → i < 256 → get_adjustment_b a i ≤ i
  entry_b-le a i f h = omega (arith, f.is_b i h, linear-le a.adjust_b i f.bytes.2)

  blend-le :
      (channel : RgbChannelAdjustment → ℕ → ℕ) (a : ColorAdjustment d) (w : Corners)
      → ((c : RgbChannelAdjustment) (i : ℕ) → IsFilled c → i < 256 → channel c i ≤ i)
      → IsReady a
      → total w ≤ 255
      → blend d channel a w ≤ 255
  unfolding blend
  blend-le channel a w le f t = omega (
    arith,
    le a.black w.black f.black (omega arith),
    le a.red w.red f.red (omega arith),
    le a.green w.green f.green (omega arith),
    le a.blue w.blue f.blue (omega arith),
    le a.cyan w.cyan f.cyan (omega arith),
    le a.magenta w.magenta f.magenta (omega arith),
    le a.yellow w.yellow f.yellow (omega arith),
    le a.white w.white f.white (omega arith),
  )

  -- With filled tables, the three channels of an adjusted byte color are the sums of the eight
  -- adjusted corners: the sums never exceed a byte, so the stored bytes do not wrap.
  pub adjust_color_exact :
      (a : ColorAdjustment d) (c : ColorRgb)
      → IsReady a
      → IsByteColor c
      → let w = corners (transform d a.rgb_transform c) in
        let r = adjust_color d a c in
        (r.red ≡ blend d get_adjustment_r a w)
        × (r.green ≡ blend d get_adjustment_g a w)
        × (r.blue ≡ blend d get_adjustment_b a w)
  unfolding adjust_color
  adjust_color_exact a c f h =
      let t =
        total-corners (transform d a.rgb_transform c)
          (transform-IsByteColor d a.rgb_transform c f.gamma h) in
      let w = corners (transform d a.rgb_transform c) in
      (
        omega (arith, blend-le get_adjustment_r a w entry_r-le f t),
        omega (arith, blend-le get_adjustment_g a w entry_g-le f t),
        omega (arith, blend-le get_adjustment_b a w entry_b-le f t),
      )

  -- The values that a channel adjustment was set to.
  abbrev pub IsSetTo : ℕ → ℕ → ℕ → RgbChannelAdjustment → Type 0
  IsSetTo r g b a = (a.adjust_r ≡ r) × (a.adjust_g ≡ g) × (a.adjust_b ≡ b)

  -- The corners that `createColorAdjustment` sets where the configuration names none.
  pub record IsDefault (a : ColorAdjustment d) : Type 0 where
    pub black : IsSetTo 0 0 0 a.black
    pub white : IsSetTo 255 255 255 a.white
    pub red : IsSetTo 255 0 0 a.red
    pub green : IsSetTo 0 255 0 a.green
    pub blue : IsSetTo 0 0 255 a.blue
    pub cyan : IsSetTo 0 255 255 a.cyan
    pub magenta : IsSetTo 255 0 255 a.magenta
    pub yellow : IsSetTo 255 255 0 a.yellow

  full_entry : (adjust i e : ℕ) → adjust ≡ 255 → i < 256 → e ≡ linear adjust i → e ≡ i
  full_entry adjust i e s h k =
      let same : linear adjust i ≡ i = rw s (linear_identity i h) in omega arith

  zero_entry : (adjust i e : ℕ) → adjust ≡ 0 → e ≡ linear adjust i → e ≡ 0
  zero_entry adjust i e s k = let same : linear adjust i ≡ 0 = rw s (linear_zero i) in omega arith

  blend_red :
      (a : ColorAdjustment d) (w : Corners)
      → IsReady a
      → IsDefault a
      → total w ≤ 255
      → blend d get_adjustment_r a w ≡ w.red + w.magenta + w.yellow + w.white
  unfolding blend
  blend_red a w f e t = omega (
    arith,
    zero_entry a.black.adjust_r w.black _ e.black.0 (f.black.is_r w.black (omega arith)),
    full_entry a.red.adjust_r w.red _ e.red.0 (omega arith) (f.red.is_r w.red (omega arith)),
    zero_entry a.green.adjust_r w.green _ e.green.0 (f.green.is_r w.green (omega arith)),
    zero_entry a.blue.adjust_r w.blue _ e.blue.0 (f.blue.is_r w.blue (omega arith)),
    zero_entry a.cyan.adjust_r w.cyan _ e.cyan.0 (f.cyan.is_r w.cyan (omega arith)),
    full_entry a.magenta.adjust_r w.magenta _ e.magenta.0 (omega arith)
        (f.magenta.is_r w.magenta (omega arith)),
    full_entry a.yellow.adjust_r w.yellow _ e.yellow.0 (omega arith)
        (f.yellow.is_r w.yellow (omega arith)),
    full_entry a.white.adjust_r w.white _ e.white.0 (omega arith)
        (f.white.is_r w.white (omega arith)),
  )

  blend_green :
      (a : ColorAdjustment d) (w : Corners)
      → IsReady a
      → IsDefault a
      → total w ≤ 255
      → blend d get_adjustment_g a w ≡ w.green + w.cyan + w.yellow + w.white
  unfolding blend
  blend_green a w f e t = omega (
    arith,
    zero_entry a.black.adjust_g w.black _ e.black.1 (f.black.is_g w.black (omega arith)),
    zero_entry a.red.adjust_g w.red _ e.red.1 (f.red.is_g w.red (omega arith)),
    full_entry a.green.adjust_g w.green _ e.green.1 (omega arith)
        (f.green.is_g w.green (omega arith)),
    zero_entry a.blue.adjust_g w.blue _ e.blue.1 (f.blue.is_g w.blue (omega arith)),
    full_entry a.cyan.adjust_g w.cyan _ e.cyan.1 (omega arith) (f.cyan.is_g w.cyan (omega arith)),
    zero_entry a.magenta.adjust_g w.magenta _ e.magenta.1 (f.magenta.is_g w.magenta (omega arith)),
    full_entry a.yellow.adjust_g w.yellow _ e.yellow.1 (omega arith)
        (f.yellow.is_g w.yellow (omega arith)),
    full_entry a.white.adjust_g w.white _ e.white.1 (omega arith)
        (f.white.is_g w.white (omega arith)),
  )

  blend_blue :
      (a : ColorAdjustment d) (w : Corners)
      → IsReady a
      → IsDefault a
      → total w ≤ 255
      → blend d get_adjustment_b a w ≡ w.blue + w.cyan + w.magenta + w.white
  unfolding blend
  blend_blue a w f e t = omega (
    arith,
    zero_entry a.black.adjust_b w.black _ e.black.2 (f.black.is_b w.black (omega arith)),
    zero_entry a.red.adjust_b w.red _ e.red.2 (f.red.is_b w.red (omega arith)),
    zero_entry a.green.adjust_b w.green _ e.green.2 (f.green.is_b w.green (omega arith)),
    full_entry a.blue.adjust_b w.blue _ e.blue.2 (omega arith) (f.blue.is_b w.blue (omega arith)),
    full_entry a.cyan.adjust_b w.cyan _ e.cyan.2 (omega arith) (f.cyan.is_b w.cyan (omega arith)),
    full_entry a.magenta.adjust_b w.magenta _ e.magenta.2 (omega arith)
        (f.magenta.is_b w.magenta (omega arith)),
    zero_entry a.yellow.adjust_b w.yellow _ e.yellow.2 (f.yellow.is_b w.yellow (omega arith)),
    full_entry a.white.adjust_b w.white _ e.white.2 (omega arith)
        (f.white.is_b w.white (omega arith)),
  )

  -- `x` is `y` or up to `n` less.
  abbrev pub Within : ℕ → ℕ → ℕ → Type 0
  Within n x y = (x ≤ y) × (y ≤ x + n)

  -- With filled tables and the default corners, each channel of an adjusted byte color is at most
  -- the channel of the transformed color, and at most 3 below it.
  pub adjust_color-default :
      (a : ColorAdjustment d) (c : ColorRgb)
      → IsReady a
      → IsDefault a
      → IsByteColor c
      → let o = transform d a.rgb_transform c in
        let r = adjust_color d a c in
        Within 3 r.red o.red × Within 3 r.green o.green × Within 3 r.blue o.blue
  adjust_color-default a c f e h =
      let o = transform d a.rgb_transform c in
      let b = transform-IsByteColor d a.rgb_transform c f.gamma h in
      let t = total-corners o b in
      let (er, eg, eb) = adjust_color_exact a c f h in
      let xr = blend_red a (corners o) f e t in
      let xg = blend_green a (corners o) f e t in
      let xb = blend_blue a (corners o) f e t in
      (
        (omega (arith, er, xr, corners_red o b), omega (arith, er, xr, corners_red o b)),
        (omega (arith, eg, xg, corners_green o b), omega (arith, eg, xg, corners_green o b)),
        (omega (arith, eb, xb, corners_blue o b), omega (arith, eb, xb, corners_blue o b)),
      )
