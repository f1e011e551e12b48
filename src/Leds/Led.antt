-- ===== src/Leds/Led.antt =====
-- include/hyperion/LedString.h: a led with its area of the picture and its color order.
use Prim.Native.String.{String}
use text.Mathlib.Text.{◌==◌ as str_eq}
use hyperion_ng_beta.Prelude.{
  ℕ, ℤ, Bool, ◌≤◌, ◌≡◌, refl, false, if◌then◌else◌, ◌*◌, ◌/◌, arith, leb,
}
use Prim.Native.Nat.{min}

pub data ColorOrder : Type 0 where
  order_rgb order_rbg order_grb order_brg order_gbr order_bgr : ColorOrder

unfoldable pub color_order_to_string : ColorOrder → String
color_order_to_string order_rgb = "rgb"
color_order_to_string order_rbg = "rbg"
color_order_to_string order_grb = "grb"
color_order_to_string order_brg = "brg"
color_order_to_string order_gbr = "gbr"
color_order_to_string order_bgr = "bgr"

unfoldable pub string_to_color_order : String → ColorOrder
string_to_color_order order =
    if str_eq order "rgb"
    then order_rgb
    else if str_eq order "bgr"
    then order_bgr
    else if str_eq order "rbg"
    then order_rbg
    else if str_eq order "brg"
    then order_brg
    else if str_eq order "gbr"
    then order_gbr
    else if str_eq order "grb"
    then order_grb
    else order_rgb

-- Reading back the name of a color order gives the order.
pub string_to_color_order-color_order_to_string :
    (o : ColorOrder) → string_to_color_order (color_order_to_string o) ≡ o
unfolding string_to_color_order color_order_to_string
string_to_color_order-color_order_to_string order_rgb = refl
string_to_color_order-color_order_to_string order_rbg = refl
string_to_color_order-color_order_to_string order_grb = refl
string_to_color_order-color_order_to_string order_brg = refl
string_to_color_order-color_order_to_string order_gbr = refl
string_to_color_order-color_order_to_string order_bgr = refl

-- The fractions of the picture, `double` values from 0 to 1, and what is computed from them.
pub record Fractions : Type 1 where
  pub Frac : Type 0
  -- unsigned(std::round(n * f)).
  pub scale : ℕ → Frac → ℕ
  -- b - a < 1e-6.
  pub tiny : Frac → Frac → Bool
  pub scale-le : (n : ℕ) (f : Frac) → scale n f ≤ n
  -- An interval that is not tiny has its ends in order.
  pub scale-mono : (n : ℕ) (a b : Frac) → tiny a b ≡ false → scale n a ≤ scale n b

pub record Led (f : Fractions) : Type 0 where
  pub index : ℕ
  pub min_x_frac : f.Frac
  pub max_x_frac : f.Frac
  pub min_y_frac : f.Frac
  pub max_y_frac : f.Frac
  pub clone : ℤ
  pub color_order : ColorOrder

-- Fractions in percent, as an instance of the parameter.
pub percent_scale : ℕ → ℕ → ℕ
percent_scale n f = n * min f 100 / 100

mul_mono : (n a b : ℕ) → a ≤ b → n * a ≤ n * b
mul_mono n a b h = grind arith

pub percent_scale-le : (n f : ℕ) → percent_scale n f ≤ n
unfolding percent_scale
percent_scale-le n f = omega (arith, mul_mono n (min f 100) 100 (omega arith))

pub percent_scale_mono : (n a b : ℕ) → leb b a ≡ false → percent_scale n a ≤ percent_scale n b
unfolding percent_scale
percent_scale_mono n a b h =
    let l : min a 100 ≤ min b 100 = ground arith in
    omega (arith, mul_mono n (min a 100) (min b 100) l)

abbrev pub percent : Fractions
percent = record {
  Frac = ℕ;
  scale = percent_scale;
  tiny = λ a b. leb b a;
  scale-le = percent_scale-le;
  scale-mono = percent_scale_mono;
}
