-- ===== src/Adjust/Tests.antt =====
-- The color adjustments (libsrc/hyperion/MultiColorAdjustment.cpp, libsrc/utils/RgbTransform.cpp) on
-- one adjustment with the default corners.
use Prim.Native.String.{String}
use hyperion_ng_beta.Prelude.{
  ℕ, [], ◌∷◌, some, none, false, ◌≡◌, ◌<◌, ◌≤◌, ◌⊎◌, ◌&&◌, refl, arith, length, get_elem?, leb,
  if◌then◌else◌,
}
use hyperion_ng_beta.Color.{ColorRgb, IsByteColor}
use hyperion_ng_beta.Adjust.Doubles.{whole}
use hyperion_ng_beta.Adjust.Channel.{
  set_adjustment, get_adjustment_r, get_adjustment_g, get_adjustment_b, set_adjustment-IsFilled,
}
use hyperion_ng_beta.Adjust.Transform
use hyperion_ng_beta.Adjust.Transform.{
  RgbTransform, transform, set_gamma, transform-IsByteColor, transform_ignores_green_blue,
}
use hyperion_ng_beta.Adjust.Multi.{
  ColorAdjustment, MultiColorAdjustment, corners, blend, adjust_color, set_adjustment_for_led,
  get_adjustment, apply_adjustment,
}
use hyperion_ng_beta.Adjust.Bounds.{IsReady, IsDefault, Within, adjust_color_exact}
use hyperion_ng_beta.Adjust.Config.{
  CornerConfig, AdjustmentConfig, create_color_adjustment, NamesNoCorner,
  create_color_adjustment-IsReady, adjust_color-create_color_adjustment,
}
use hyperion_ng_beta.Adjust.Leds.{at_led, set_adjustment_for_led_lem, apply_adjustment_lem}

abbrev gamma : RgbTransform whole
gamma = Transform.init whole 1 1 1 0 false 1

-- The adjustment of a configuration that names no corner.
abbrev default : ColorAdjustment whole
default = record {
  id = "default";
  black = set_adjustment 0 0 0;
  white = set_adjustment 255 255 255;
  red = set_adjustment 255 0 0;
  green = set_adjustment 0 255 0;
  blue = set_adjustment 0 0 255;
  cyan = set_adjustment 0 255 255;
  magenta = set_adjustment 255 0 255;
  yellow = set_adjustment 255 255 0;
  rgb_transform = gamma;
}

default-IsReady : IsReady whole default
default-IsReady = record {
  black = set_adjustment-IsFilled 0 0 0 (omega arith) (omega arith) (omega arith);
  white = set_adjustment-IsFilled 255 255 255 (omega arith) (omega arith) (omega arith);
  red = set_adjustment-IsFilled 255 0 0 (omega arith) (omega arith) (omega arith);
  green = set_adjustment-IsFilled 0 255 0 (omega arith) (omega arith) (omega arith);
  blue = set_adjustment-IsFilled 0 0 255 (omega arith) (omega arith) (omega arith);
  cyan = set_adjustment-IsFilled 0 255 255 (omega arith) (omega arith) (omega arith);
  magenta = set_adjustment-IsFilled 255 0 255 (omega arith) (omega arith) (omega arith);
  yellow = set_adjustment-IsFilled 255 255 0 (omega arith) (omega arith) (omega arith);
  gamma = Transform.init-IsFilled whole 1 1 1 0 false 1;
}

default-IsDefault : IsDefault whole default
unfolding set_adjustment
default-IsDefault = record {
  black = (refl, refl, refl);
  white = (refl, refl, refl);
  red = (refl, refl, refl);
  green = (refl, refl, refl);
  blue = (refl, refl, refl);
  cyan = (refl, refl, refl);
  magenta = (refl, refl, refl);
  yellow = (refl, refl, refl);
}

abbrev orange : ColorRgb
orange = record { red = 250; green = 90; blue = 5 }

orange-IsByteColor : IsByteColor orange
orange-IsByteColor = (omega arith, omega arith, omega arith)

adjust_color_exact_example :
    let w = corners (transform whole gamma orange) in
    let r = adjust_color whole default orange in
    (r.red ≡ blend whole get_adjustment_r default w)
    × (r.green ≡ blend whole get_adjustment_g default w)
    × (r.blue ≡ blend whole get_adjustment_b default w)
adjust_color_exact_example =
    adjust_color_exact whole default orange default-IsReady orange-IsByteColor

transform_ignores_example :
    transform whole (set_gamma whole 1 2 3 gamma) orange
    ≡ transform whole (set_gamma whole 1 5 6 gamma) orange
transform_ignores_example = transform_ignores_green_blue whole gamma 1 2 3 5 6 orange

-- Two leds, both with this adjustment.
abbrev pub two_adjusted : MultiColorAdjustment whole
two_adjusted = record {
  adjustment_ids = "default" ∷ [];
  adjustments = default ∷ [];
  led_adjustments = some 0 ∷ some 0 ∷ [];
}

abbrev After : MultiColorAdjustment whole → String → ℕ → ℕ → Type 0
After m id s e =
    ((set_adjustment_for_led whole id s e m ≡ none) × ((e < s) ⊎ (length m.led_adjustments ≤ e)))
    ⊎ ((s ≤ e)
        × (e < length m.led_adjustments)
        × (t : MultiColorAdjustment whole) × (set_adjustment_for_led whole id s e m ≡ some t)
        × (t.adjustments ≡ m.adjustments)
        × ((k : ℕ)
            → get_elem? t.led_adjustments k ≡ (
                if leb s k && leb k e
                then some (get_adjustment whole m id)
                else get_elem? m.led_adjustments k)))

set_adjustment_for_led_example : After two_adjusted "default" 1 1
set_adjustment_for_led_example = set_adjustment_for_led_lem whole "default" 1 1 two_adjusted

apply_adjustment_example :
    (length (apply_adjustment whole two_adjusted (orange ∷ [])) ≡ 1)
    × ((k : ℕ) (c : ColorRgb)
        → get_elem? (orange ∷ []) k ≡ some c
        → get_elem? (apply_adjustment whole two_adjusted (orange ∷ [])) k
          ≡ some
              (at_led whole (get_elem? two_adjusted.led_adjustments k) two_adjusted.adjustments c))
apply_adjustment_example = apply_adjustment_lem whole two_adjusted (orange ∷ [])

abbrev unnamed : CornerConfig
unnamed = record { red = none; green = none; blue = none }

-- A configuration with a brightness of its own.
abbrev bright : AdjustmentConfig whole
bright = record {
  id = none;
  black = unnamed;
  white = unnamed;
  red = unnamed;
  green = unnamed;
  blue = unnamed;
  cyan = unnamed;
  magenta = unnamed;
  yellow = unnamed;
  backlight_threshold = none;
  backlight_colored = none;
  brightness = some 1;
  gamma_red = none;
  gamma_green = none;
  gamma_blue = none;
}

create_color_adjustment_example : IsReady whole (create_color_adjustment whole bright)
create_color_adjustment_example = create_color_adjustment-IsReady whole bright

bright_names_none : NamesNoCorner whole bright
bright_names_none = record {
  black = (refl, refl, refl);
  white = (refl, refl, refl);
  red = (refl, refl, refl);
  green = (refl, refl, refl);
  blue = (refl, refl, refl);
  cyan = (refl, refl, refl);
  magenta = (refl, refl, refl);
  yellow = (refl, refl, refl);
}

abbrev AdjustsTo : AdjustmentConfig whole → ColorRgb → Type 0
AdjustsTo config c =
    let a = create_color_adjustment whole config in
    let o = transform whole a.rgb_transform c in
    let r = adjust_color whole a c in
    Within whole 3 r.red o.red × Within whole 3 r.green o.green × Within whole 3 r.blue o.blue

adjust_color-create_example : AdjustsTo bright orange
adjust_color-create_example =
    adjust_color-create_color_adjustment whole bright orange bright_names_none orange-IsByteColor
