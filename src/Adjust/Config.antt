-- ===== src/Adjust/Config.antt =====
-- The color adjustments of the configuration: `createColorAdjustment`, `createRgbTransform` and
-- `createRgbChannelAdjustment` in libsrc/hyperion/Hyperion.cpp.
use Prim.Native.String.{String}
use hyperion_ng_beta.Prelude.{
  ℕ, ℤ, pos, negsuc, ◌-◌, ◌%◌, ◌<◌, ◌≡◌, arith, Bool, false, Option, none, some,
}
use hyperion_ng_beta.Adjust.Doubles.{Doubles}
use hyperion_ng_beta.Adjust.Channel.{RgbChannelAdjustment, set_adjustment, set_adjustment-IsFilled}
use hyperion_ng_beta.Adjust.Channel
use hyperion_ng_beta.Adjust.Transform
use hyperion_ng_beta.Adjust.Transform.{RgbTransform, transform}
use hyperion_ng_beta.Adjust.Multi.{ColorAdjustment, adjust_color}
use hyperion_ng_beta.Adjust.Bounds.{IsReady, IsDefault, Within, adjust_color-default}
use hyperion_ng_beta.Color.{ColorRgb, IsByteColor}

-- The three numbers of a corner; `none` is one that the configuration does not have.
pub record CornerConfig : Type 0 where
  pub red : Option ℤ
  pub green : Option ℤ
  pub blue : Option ℤ

pub record AdjustmentConfig (d : Doubles) : Type 0 where
  pub id : Option String
  pub black : CornerConfig
  pub white : CornerConfig
  pub red : CornerConfig
  pub green : CornerConfig
  pub blue : CornerConfig
  pub cyan : CornerConfig
  pub magenta : CornerConfig
  pub yellow : CornerConfig
  pub backlight_threshold : Option d.Double
  pub backlight_colored : Option Bool
  pub brightness : Option d.Double
  pub gamma_red : Option d.Double
  pub gamma_green : Option d.Double
  pub gamma_blue : Option d.Double

-- `toInt`, `toDouble`, `toBool` and `toString` with a default.
unfoldable pub or_default {ℓ} : {A : Type ℓ} → A → Option A → A
or_default a none = a
or_default a (some b) = b

-- An `int` as an argument of type `uint8_t`.
unfoldable pub to_uint8 : ℤ → ℕ
to_uint8 (pos n) = n % 256
to_uint8 (negsuc n) = 255 - n % 256

unfoldable pub create_rgb_channel_adjustment : CornerConfig → ℕ → ℕ → ℕ → RgbChannelAdjustment
create_rgb_channel_adjustment c r g b =
    set_adjustment (to_uint8 (or_default (pos r) c.red)) (to_uint8 (or_default (pos g) c.green))
      (to_uint8 (or_default (pos b) c.blue))

module _ (d : Doubles) where
  unfoldable pub create_rgb_transform : AdjustmentConfig d → RgbTransform d
  create_rgb_transform c =
      Transform.init d (or_default d.one_double c.gamma_red) (or_default d.one_double c.gamma_green)
        (or_default d.one_double c.gamma_blue) (or_default d.zero_double c.backlight_threshold)
        (or_default false c.backlight_colored) (or_default d.half_double c.brightness)

  unfoldable pub create_color_adjustment : AdjustmentConfig d → ColorAdjustment d
  create_color_adjustment c = record {
    id = or_default "default" c.id;
    black = create_rgb_channel_adjustment c.black 0 0 0;
    white = create_rgb_channel_adjustment c.white 255 255 255;
    red = create_rgb_channel_adjustment c.red 255 0 0;
    green = create_rgb_channel_adjustment c.green 0 255 0;
    blue = create_rgb_channel_adjustment c.blue 0 0 255;
    cyan = create_rgb_channel_adjustment c.cyan 0 255 255;
    magenta = create_rgb_channel_adjustment c.magenta 255 0 255;
    yellow = create_rgb_channel_adjustment c.yellow 255 255 0;
    rgb_transform = create_rgb_transform c;
  }

to_uint8-lt : (i : ℤ) → to_uint8 i < 256
unfolding to_uint8
to_uint8-lt (pos n) = omega arith
to_uint8-lt (negsuc n) = omega arith

create_rgb_channel_adjustment-IsFilled :
    (c : CornerConfig) (r g b : ℕ) → Channel.IsFilled (create_rgb_channel_adjustment c r g b)
unfolding create_rgb_channel_adjustment
create_rgb_channel_adjustment-IsFilled c r g b =
    set_adjustment-IsFilled _ _ _ (to_uint8-lt _) (to_uint8-lt _) (to_uint8-lt _)

-- A corner that the configuration does not name.
abbrev pub Unnamed : CornerConfig → Type 0
Unnamed c = (c.red ≡ none) × (c.green ≡ none) × (c.blue ≡ none)

module _ (d : Doubles) where
  -- None of the eight corners is named.
  pub record NamesNoCorner (c : AdjustmentConfig d) : Type 0 where
    pub black : Unnamed c.black
    pub white : Unnamed c.white
    pub red : Unnamed c.red
    pub green : Unnamed c.green
    pub blue : Unnamed c.blue
    pub cyan : Unnamed c.cyan
    pub magenta : Unnamed c.magenta
    pub yellow : Unnamed c.yellow

  -- Whatever the configuration holds, all tables of the adjustment that createColorAdjustment
  -- makes are filled, with bytes as the values that they are set to.
  pub create_color_adjustment-IsReady :
      (c : AdjustmentConfig d) → IsReady d (create_color_adjustment d c)
  unfolding create_color_adjustment create_rgb_transform
  create_color_adjustment-IsReady c = record {
    black = create_rgb_channel_adjustment-IsFilled c.black 0 0 0;
    white = create_rgb_channel_adjustment-IsFilled c.white 255 255 255;
    red = create_rgb_channel_adjustment-IsFilled c.red 255 0 0;
    green = create_rgb_channel_adjustment-IsFilled c.green 0 255 0;
    blue = create_rgb_channel_adjustment-IsFilled c.blue 0 0 255;
    cyan = create_rgb_channel_adjustment-IsFilled c.cyan 0 255 255;
    magenta = create_rgb_channel_adjustment-IsFilled c.magenta 255 0 255;
    yellow = create_rgb_channel_adjustment-IsFilled c.yellow 255 255 0;
    gamma = Transform.init-IsFilled d _ _ _ _ _ _;
  }

unnamed_corner :
    (c : CornerConfig) (r g b : ℕ)
    → r < 256
    → g < 256
    → b < 256
    → Unnamed c
    → let a = create_rgb_channel_adjustment c r g b in
      (a.adjust_r ≡ r) × (a.adjust_g ≡ g) × (a.adjust_b ≡ b)
unfolding create_rgb_channel_adjustment set_adjustment to_uint8 or_default
unnamed_corner c r g b hr hg hb (er, eg, eb) =
    rw (er, eg, eb) (omega arith, omega arith, omega arith)

module _ (d : Doubles) where
  create_color_adjustment-IsDefault :
      (c : AdjustmentConfig d) → NamesNoCorner d c → IsDefault d (create_color_adjustment d c)
  unfolding create_color_adjustment
  create_color_adjustment-IsDefault c n = record {
    black = unnamed_corner c.black 0 0 0 (omega arith) (omega arith) (omega arith) n.black;
    white = unnamed_corner c.white 255 255 255 (omega arith) (omega arith) (omega arith) n.white;
    red = unnamed_corner c.red 255 0 0 (omega arith) (omega arith) (omega arith) n.red;
    green = unnamed_corner c.green 0 255 0 (omega arith) (omega arith) (omega arith) n.green;
    blue = unnamed_corner c.blue 0 0 255 (omega arith) (omega arith) (omega arith) n.blue;
    cyan = unnamed_corner c.cyan 0 255 255 (omega arith) (omega arith) (omega arith) n.cyan;
    magenta =
        unnamed_corner c.magenta 255 0 255 (omega arith) (omega arith) (omega arith) n.magenta;
    yellow = unnamed_corner c.yellow 255 255 0 (omega arith) (omega arith) (omega arith) n.yellow;
  }

  -- With a configuration that names no corner, each channel of an adjusted byte color is at most
  -- the channel of the transformed color, and at most 3 below it.
  pub adjust_color-create_color_adjustment :
      (config : AdjustmentConfig d) (c : ColorRgb)
      → NamesNoCorner d config
      → IsByteColor c
      → let a = create_color_adjustment d config in
        let o = transform d a.rgb_transform c in
        let r = adjust_color d a c in
        Within d 3 r.red o.red × Within d 3 r.green o.green × Within d 3 r.blue o.blue
  adjust_color-create_color_adjustment config c n h =
      adjust_color-default d (create_color_adjustment d config) c
        (create_color_adjustment-IsReady d config) (create_color_adjustment-IsDefault config n) h
