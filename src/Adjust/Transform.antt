-- ===== src/Adjust/Transform.antt =====
-- libsrc/utils/RgbTransform.cpp: gamma tables, brightness limit and backlight.
use hyperion_ng_beta.Prelude.{
  ℕ, ◌+◌, ◌<◌, ◌≡◌, refl, Bool, true, false, ◌&&◌, ◌==◌, if◌then◌else◌, List, get_or,
}
use hyperion_ng_beta.Color.{ColorRgb, IsByteColor}
use hyperion_ng_beta.Adjust.Doubles.{Doubles}
use hyperion_ng_beta.Adjust.Channel.{table, get_or-table}

pub record RgbTransform (d : Doubles) : Type 0 where
  pub backlight_threshold : d.Double
  pub backlight_colored : Bool
  pub brightness_high : d.Double
  pub sum_brightness_low : d.Double
  pub sum_brightness_high : d.Double
  pub gamma_r : d.Double
  pub gamma_g : d.Double
  pub gamma_b : d.Double
  pub mapping_r : List ℕ
  pub mapping_g : List ℕ
  pub mapping_b : List ℕ
  pub backlight_enabled : Bool

module _ (d : Doubles) where
  open d use {
    Double, of_nat, ltb_double, mul, div, brightness_sum, zero_double, three_double, gamma_byte,
    to_byte, min_255, gamma_byte-lt, to_byte-lt, min_255-lt,
  }

  -- `setGamma`: a negative green or blue gamma means that of red.
  unfoldable pub set_gamma : Double → Double → Double → RgbTransform d → RgbTransform d
  set_gamma r g b t =
      let green = if ltb_double g zero_double then r else g in
      let blue = if ltb_double b zero_double then r else b in
      record t {
        gamma_r = r;
        gamma_g = green;
        gamma_b = blue;
        mapping_r = table 256 (gamma_byte r);
        mapping_g = table 256 (gamma_byte green);
        mapping_b = table 256 (gamma_byte blue);
      }

  unfoldable pub set_backlight_threshold : Double → RgbTransform d → RgbTransform d
  set_backlight_threshold x t = record t {
    backlight_threshold = x;
    sum_brightness_low = brightness_sum x;
  }

  unfoldable pub set_backlight_colored : Bool → RgbTransform d → RgbTransform d
  set_backlight_colored colored t = record t { backlight_colored = colored }

  unfoldable pub set_brightness : Double → RgbTransform d → RgbTransform d
  set_brightness x t = record t { brightness_high = x; sum_brightness_high = brightness_sum x }

  unfoldable pub set_backlight_enabled : Bool → RgbTransform d → RgbTransform d
  set_backlight_enabled enable t = record t { backlight_enabled = enable }

  -- The constructor.
  unfoldable pub init : Double → Double → Double → Double → Bool → Double → RgbTransform d
  init r g b threshold colored brightness =
      let green = if ltb_double g zero_double then r else g in
      let blue = if ltb_double b zero_double then r else b in
      record {
        backlight_threshold = threshold;
        backlight_colored = colored;
        brightness_high = brightness;
        sum_brightness_low = brightness_sum threshold;
        sum_brightness_high = brightness_sum brightness;
        gamma_r = r;
        gamma_g = green;
        gamma_b = blue;
        mapping_r = table 256 (gamma_byte r);
        mapping_g = table 256 (gamma_byte green);
        mapping_b = table 256 (gamma_byte blue);
        backlight_enabled = true;
      }

  -- `c *= k` on each channel.
  unfoldable pub scale : Double → ColorRgb → ColorRgb
  scale k c = record {
    red = to_byte (mul (of_nat c.red) k);
    green = to_byte (mul (of_nat c.green) k);
    blue = to_byte (mul (of_nat c.blue) k);
  }

  unfoldable pub at_least_one : ℕ → ℕ
  at_least_one x = if x == 0 then 1 else x

  -- The colored backlight of a picture that is too dark.
  unfoldable pub lift_colored : RgbTransform d → ColorRgb → ColorRgb
  lift_colored t c =
      let sum = c.red + c.green + c.blue in
      let lit : ColorRgb =
        if sum == 0
        then record {
          red = at_least_one c.red;
          green = at_least_one c.green;
          blue = at_least_one c.blue;
        }
        else c in
      scale (of_nat (min_255 (div t.sum_brightness_low (of_nat (lit.red + lit.green + lit.blue)))))
        lit

  unfoldable pub lift_grey : RgbTransform d → ColorRgb
  lift_grey t =
      let level = min_255 (div t.sum_brightness_low three_double) in
      record { red = level; green = level; blue = level }

  -- The gamma step looks every channel up in the table of red.
  unfoldable pub apply_gamma : RgbTransform d → ColorRgb → ColorRgb
  apply_gamma t c = record {
    red = get_or t.mapping_r c.red 0;
    green = get_or t.mapping_r c.green 0;
    blue = get_or t.mapping_r c.blue 0;
  }

  unfoldable pub apply_brightness : RgbTransform d → ColorRgb → ColorRgb
  apply_brightness t c =
      let sum = of_nat (c.red + c.green + c.blue) in
      if ltb_double zero_double t.sum_brightness_high && ltb_double t.sum_brightness_high sum
      then scale (div t.sum_brightness_high sum) c
      else if t.backlight_enabled
          && (ltb_double zero_double t.sum_brightness_low && ltb_double sum t.sum_brightness_low)
      then (if t.backlight_colored then lift_colored t c else lift_grey t)
      else c

  unfoldable pub transform : RgbTransform d → ColorRgb → ColorRgb
  transform t c = apply_brightness t (apply_gamma t c)

  -- The gamma tables hold bytes.
  pub record IsFilled (t : RgbTransform d) : Type 0 where
    pub bytes_r : (i : ℕ) → i < 256 → get_or t.mapping_r i 0 < 256

  pub init-IsFilled :
      (r g b threshold : Double) (colored : Bool) (brightness : Double)
      → IsFilled (init r g b threshold colored brightness)
  unfolding init
  init-IsFilled r g b threshold colored brightness = record {
    bytes_r = λ i h. rw (get_or-table 256 i (gamma_byte r) h) (gamma_byte-lt r i);
  }

  scale-IsByteColor : (k : Double) (c : ColorRgb) → IsByteColor (scale k c)
  unfolding scale
  scale-IsByteColor k c = (to_byte-lt _, to_byte-lt _, to_byte-lt _)

  lift_grey-IsByteColor : (t : RgbTransform d) → IsByteColor (lift_grey t)
  unfolding lift_grey
  lift_grey-IsByteColor t = (min_255-lt _, min_255-lt _, min_255-lt _)

  apply_brightness-IsByteColor :
      (t : RgbTransform d) (c : ColorRgb) → IsByteColor c → IsByteColor (apply_brightness t c)
  unfolding apply_brightness lift_colored
  apply_brightness-IsByteColor t c h =
      pick _ (scale-IsByteColor _ c)
        (pick _ (pick t.backlight_colored (scale-IsByteColor _ _) (lift_grey-IsByteColor t)) h)
    where
      pick :
          (b : Bool) {x y : ColorRgb}
          → IsByteColor x
          → IsByteColor y
          → IsByteColor (if b then x else y)
      pick true h k = h
      pick false h k = k

  -- With a filled gamma table, the transform of a color of bytes is a color of bytes.
  pub transform-IsByteColor :
      (t : RgbTransform d) (c : ColorRgb) → IsFilled t → IsByteColor c → IsByteColor (transform t c)
  unfolding transform apply_gamma
  transform-IsByteColor t c f h =
      apply_brightness-IsByteColor t _
        (f.bytes_r c.red h.0, f.bytes_r c.green h.1, f.bytes_r c.blue h.2)

  -- The green and blue gamma tables do not take part: whatever gamma is set for green and blue,
  -- the transform of a color is the same.
  pub transform_ignores_green_blue :
      (t : RgbTransform d) (r g b g' b' : Double) (c : ColorRgb)
      → transform (set_gamma r g b t) c ≡ transform (set_gamma r g' b' t) c
  unfolding transform apply_gamma apply_brightness lift_colored lift_grey set_gamma
  transform_ignores_green_blue t r g b g' b' c = refl
