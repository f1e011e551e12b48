-- ===== src/Devices/Rgbw.antt =====
-- libsrc/utils/RgbToRgbw.cpp and include/utils/ColorRgbw.h: colors with a channel for white.
use Prim.Native.Nat.{min}
use Prim.Native.String.{String}
use text.Mathlib.Text.{◌==◌ as str_eq}
use hyperion_ng_beta.Prelude.{ℕ, ◌+◌, ◌-◌, ◌%◌, if◌then◌else◌, ◌||◌}
use hyperion_ng_beta.Color.{ColorRgb}

pub record ColorRgbw : Type 0 where
  pub red : ℕ
  pub green : ℕ
  pub blue : ℕ
  pub white : ℕ

pub data WhiteAlgorithm : Type 0 where
  invalid subtract_minimum sub_min_warm_adjust white_off : WhiteAlgorithm

unfoldable pub string_to_white_algorithm : String → WhiteAlgorithm
string_to_white_algorithm str =
    if str_eq str "subtract_minimum"
    then subtract_minimum
    else if str_eq str "sub_min_warm_adjust"
    then sub_min_warm_adjust
    else if str_eq str "" || str_eq str "white_off"
    then white_off
    else invalid

-- The algorithm that is not implemented leaves the output as it was.
unfoldable pub rgb_to_rgbw : ColorRgb → ColorRgbw → WhiteAlgorithm → ColorRgbw
rgb_to_rgbw input output subtract_minimum =
    let white = min (min input.red input.green) input.blue in
    record {
      red = (input.red + 256 - white) % 256;
      green = (input.green + 256 - white) % 256;
      blue = (input.blue + 256 - white) % 256;
      white = white;
    }
rgb_to_rgbw input output sub_min_warm_adjust = output
rgb_to_rgbw input output white_off = record {
  red = input.red;
  green = input.green;
  blue = input.blue;
  white = 0;
}
rgb_to_rgbw input output invalid = output
