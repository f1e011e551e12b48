-- ===== src/Adjust/Doubles.antt =====
-- The operations on `double` that libsrc/utils/RgbTransform.cpp and MultiColorAdjustment.cpp use. The
-- numbers themselves are a parameter of the model.
use Prim.Native.Nat.{min}
use hyperion_ng_beta.Prelude.{ℕ, ◌%◌, ◌*◌, ◌/◌, ◌<◌, Bool, ltb, leb, arith}

pub record Doubles : Type 1 where
  pub Double : Type 0
  pub of_nat : ℕ → Double
  pub ltb_double : Double → Double → Bool
  pub leb_double : Double → Double → Bool
  pub mul : Double → Double → Double
  pub div : Double → Double → Double
  -- 765 * ((2 ^ (2 * x) - 1) / 3), the sum of the channels that goes with a brightness.
  pub brightness_sum : Double → Double
  -- 0.0, 0.5, 1.0 and 3.0
  pub zero_double : Double
  pub half_double : Double
  pub one_double : Double
  pub three_double : Double
  -- min(max((int)(pow(i / 255.0, gamma) * 255), 0), 255) as a byte.
  pub gamma_byte : Double → ℕ → ℕ
  pub gamma_byte-lt : (g : Double) (i : ℕ) → gamma_byte g i < 256
  -- The conversion to `uint8_t`, and min((int) x, 255) of a number that is not negative.
  pub to_byte : Double → ℕ
  pub to_byte-lt : (x : Double) → to_byte x < 256
  pub min_255 : Double → ℕ
  pub min_255-lt : (x : Double) → min_255 x < 256

-- Whole numbers in place of doubles.
pub whole_gamma-lt : (g i : ℕ) → i % 256 < 256
whole_gamma-lt g i = omega arith

pub whole_byte-lt : (x : ℕ) → x % 256 < 256
whole_byte-lt x = omega arith

pub whole_min-lt : (x : ℕ) → min x 255 < 256
whole_min-lt x = omega arith

abbrev pub whole : Doubles
whole = record {
  Double = ℕ;
  of_nat = λ n. n;
  ltb_double = ltb;
  leb_double = leb;
  mul = λ a b. a * b;
  div = λ a b. a / b;
  brightness_sum = λ x. 765 * x;
  zero_double = 0;
  half_double = 1;
  one_double = 1;
  three_double = 3;
  gamma_byte = λ g i. i % 256;
  gamma_byte-lt = whole_gamma-lt;
  to_byte = λ x. x % 256;
  to_byte-lt = whole_byte-lt;
  min_255 = λ x. min x 255;
  min_255-lt = whole_min-lt;
}
