-- ===== src/Adjust/Multi.antt =====
-- libsrc/hyperion/MultiColorAdjustment.cpp and include/hyperion/ColorAdjustment.h. The pointers to the
-- shared adjustments are positions in the list of adjustments, and `none` is `nullptr`.
use Prim.Native.String.{String}
use text.Mathlib.Text.{◌==◌ as str_eq}
use hyperion_ng_beta.Prelude.{
  ℕ, zero, suc, ◌+◌, ◌-◌, ◌*◌, ◌/◌, ◌%◌, Bool, true, false, ◌&&◌, if◌then◌else◌, leb, ltb, List, [],
  ◌∷◌, ◌++◌, map, Option, none, some, get_elem?, set, length, replicate,
}
use hyperion_ng_beta.Color.{ColorRgb}
use hyperion_ng_beta.Adjust.Doubles.{Doubles}
use hyperion_ng_beta.Adjust.Channel.{
  RgbChannelAdjustment, get_adjustment_r, get_adjustment_g, get_adjustment_b,
}
use hyperion_ng_beta.Adjust.Transform
use hyperion_ng_beta.Adjust.Transform.{
  RgbTransform, transform, set_backlight_threshold, set_brightness,
}

pub record ColorAdjustment (d : Doubles) : Type 0 where
  pub id : String
  pub black : RgbChannelAdjustment
  pub white : RgbChannelAdjustment
  pub red : RgbChannelAdjustment
  pub green : RgbChannelAdjustment
  pub blue : RgbChannelAdjustment
  pub cyan : RgbChannelAdjustment
  pub magenta : RgbChannelAdjustment
  pub yellow : RgbChannelAdjustment
  pub rgb_transform : RgbTransform d

pub record MultiColorAdjustment (d : Doubles) : Type 0 where
  pub adjustment_ids : List String
  pub adjustments : List (ColorAdjustment d)
  pub led_adjustments : List (Option ℕ)

-- How much of a color each of the eight corners of the color cube makes up.
pub record Corners : Type 0 where
  pub black : ℕ
  pub red : ℕ
  pub green : ℕ
  pub blue : ℕ
  pub cyan : ℕ
  pub magenta : ℕ
  pub yellow : ℕ
  pub white : ℕ

-- Three channels as `uint8_t`, so that the differences are not negative and the products fit.
unfoldable pub corners : ColorRgb → Corners
corners o =
    let nrng = (255 - o.red) * (255 - o.green) in
    let rng = o.red * (255 - o.green) in
    let nrg = (255 - o.red) * o.green in
    let rg = o.red * o.green in
    record {
      black = nrng * (255 - o.blue) / 65025;
      red = rng * (255 - o.blue) / 65025;
      green = nrg * (255 - o.blue) / 65025;
      blue = nrng * o.blue / 65025;
      cyan = nrg * o.blue / 65025;
      magenta = rng * o.blue / 65025;
      yellow = rg * (255 - o.blue) / 65025;
      white = rg * o.blue / 65025;
    }

module _ (d : Doubles) where
  -- The sum of one channel of the eight adjusted corners, before it is stored in a byte.
  unfoldable pub blend : (RgbChannelAdjustment → ℕ → ℕ) → ColorAdjustment d → Corners → ℕ
  blend channel a w =
      channel a.black w.black
      + channel a.red w.red
      + channel a.green w.green
      + channel a.blue w.blue
      + channel a.cyan w.cyan
      + channel a.magenta w.magenta
      + channel a.yellow w.yellow
      + channel a.white w.white

  -- The body of the loop of `applyAdjustment`.
  unfoldable pub adjust_color : ColorAdjustment d → ColorRgb → ColorRgb
  adjust_color a color =
      let w = corners (transform d a.rgb_transform color) in
      record {
        red = blend get_adjustment_r a w % 256;
        green = blend get_adjustment_g a w % 256;
        blue = blend get_adjustment_b a w % 256;
      }

  unfoldable pub init : ℕ → MultiColorAdjustment d
  init led_cnt = record {
    adjustment_ids = [];
    adjustments = [];
    led_adjustments = replicate led_cnt none;
  }

  unfoldable pub add_adjustment :
      ColorAdjustment d → MultiColorAdjustment d → MultiColorAdjustment d
  add_adjustment a m = record m {
    adjustment_ids = m.adjustment_ids ++ a.id ∷ [];
    adjustments = m.adjustments ++ a ∷ [];
  }

  pub position : String → List (ColorAdjustment d) → ℕ → Option ℕ
  position id [] i = none
  position id (a ∷ as') i =
      let rest = position id as' (i + 1) in if str_eq a.id id then some i else rest

  -- The first adjustment with this id.
  unfoldable pub get_adjustment : MultiColorAdjustment d → String → Option ℕ
  unfolding position
  get_adjustment m id = position id m.adjustments 0

  unfoldable pub fill_range : ℕ → ℕ → Option ℕ → List (Option ℕ) → List (Option ℕ)
  fill_range led zero a l = l
  fill_range led (suc n) a l = fill_range (led + 1) n a (set l led a)

  -- `none` is a failed `assert`.
  unfoldable pub set_adjustment_for_led :
      String → ℕ → ℕ → MultiColorAdjustment d → Option (MultiColorAdjustment d)
  unfolding fill_range
  set_adjustment_for_led id start_led end_led m =
      if leb start_led end_led && ltb end_led (length m.led_adjustments)
      then some (record m {
        led_adjustments =
            fill_range start_led (end_led + 1 - start_led) (get_adjustment m id) m.led_adjustments;
      })
      else none

  -- The defaults that replace a brightness which is not above the backlight threshold.
  unfoldable pub repair : ColorAdjustment d → ColorAdjustment d
  repair a =
      let t = a.rgb_transform in
      if d.leb_double t.brightness_high t.backlight_threshold
      then record a {
        rgb_transform = set_brightness d d.half_double (set_backlight_threshold d d.zero_double t);
      }
      else a

  pub repair_at : ℕ → List (ColorAdjustment d) → List (ColorAdjustment d)
  repair_at i [] = []
  repair_at zero (a ∷ l) = repair a ∷ l
  repair_at (suc i) (a ∷ l) = a ∷ repair_at i l

  -- The loop of `verifyAdjustments` and its result: false, at the first led without an adjustment.
  unfoldable pub verify_leds :
      List (Option ℕ) → List (ColorAdjustment d) → List (ColorAdjustment d) × Bool
  unfolding repair_at
  verify_leds [] l = (l, true)
  verify_leds (none ∷ leds) l = (l, false)
  verify_leds (some i ∷ leds) l = verify_leds leds (repair_at i l)

  unfoldable pub verify_adjustments : MultiColorAdjustment d → MultiColorAdjustment d × Bool
  verify_adjustments m =
      let (l, ok) = verify_leds m.led_adjustments m.adjustments in
      (record m { adjustments = l }, ok)

  unfoldable pub set_backlight_enabled : Bool → MultiColorAdjustment d → MultiColorAdjustment d
  set_backlight_enabled enable m = record m {
    adjustments =
        map
          (λ (a : ColorAdjustment d). record a {
            rgb_transform = Transform.set_backlight_enabled d enable a.rgb_transform;
          })
          m.adjustments;
  }

  unfoldable pub apply_led : Option ℕ → List (ColorAdjustment d) → ColorRgb → ColorRgb
  apply_led none l c = c
  apply_led (some i) l c = elim (get_elem? l i) [ none ↦ c | some a ↦ adjust_color a c ]

  -- The loop of `applyAdjustment`, over the leds that both lists have.
  unfoldable pub apply_leds :
      List (ColorAdjustment d) → List (Option ℕ) → List ColorRgb → List ColorRgb
  apply_leds l [] colors = colors
  apply_leds l (p ∷ ps) [] = []
  apply_leds l (p ∷ ps) (c ∷ colors) = apply_led p l c ∷ apply_leds l ps colors

  unfoldable pub apply_adjustment : MultiColorAdjustment d → List ColorRgb → List ColorRgb
  apply_adjustment m colors = apply_leds m.adjustments m.led_adjustments colors
