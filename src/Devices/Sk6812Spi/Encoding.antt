-- ===== src/Devices/Sk6812Spi/Encoding.antt =====
-- The bytes on the bus of a led strip, and the colors that the leds read from them.
use hyperion_ng_beta.Prelude.{
  ℕ, zero, suc, ◌+◌, ◌*◌, ◌/◌, ◌%◌, ◌<◌, List, [], ◌∷◌, ◌++◌, map, length, length-append, take,
  drop, append_assoc, All, ◌≡◌, refl, ◌∙◌, arith, subst, take-append,
}
use hyperion_ng_beta.Color.{ColorRgb, IsByteColor}
use hyperion_ng_beta.Devices.Rgbw.{
  ColorRgbw, WhiteAlgorithm, subtract_minimum, white_off, rgb_to_rgbw,
}
use hyperion_ng_beta.Devices.Sk6812Spi.{color_bits}
use hyperion_ng_beta.Devices.Sk6812Spi.Coding.{
  read_pairs, read_pairs-pairs, pairs, power, length-pairs,
}

-- An algorithm that is implemented.
pub data IsImplemented : WhiteAlgorithm → Type 0 where
  subtracts : IsImplemented subtract_minimum
  leaves : IsImplemented white_off

-- The four channels of the bits of a led, and the color that the leds show together.
unfoldable pub to_color : ℕ → ColorRgbw
to_color bits = record {
  red = bits / 16777216;
  green = bits / 65536 % 256;
  blue = bits / 256 % 256;
  white = bits % 256;
}

unfoldable pub add_white : ColorRgbw → ColorRgb
add_white c = record { red = c.red + c.white; green = c.green + c.white; blue = c.blue + c.white }

unfoldable pub read_leds : ℕ → List ℕ → List ColorRgbw
unfolding read_pairs to_color
read_leds zero b = []
read_leds (suc n) b = to_color (read_pairs 0 (take 16 b)) ∷ read_leds n (drop 16 b)

abbrev pub dark : ColorRgbw
dark = record { red = 0; green = 0; blue = 0; white = 0 }

pub rgb_to_rgbw-output :
    {a : WhiteAlgorithm} (c : ColorRgb) (o : ColorRgbw)
    → IsImplemented a
    → rgb_to_rgbw c o a ≡ rgb_to_rgbw c dark a
unfolding rgb_to_rgbw
rgb_to_rgbw-output c o subtracts = refl
rgb_to_rgbw-output c o leaves = refl

abbrev IsByteRgbw : ColorRgbw → Type 0
IsByteRgbw c = (c.red < 256) × (c.green < 256) × (c.blue < 256) × (c.white < 256)

rgb_to_rgbw-IsByteRgbw :
    {a : WhiteAlgorithm} (c : ColorRgb)
    → IsByteColor c
    → IsImplemented a
    → IsByteRgbw (rgb_to_rgbw c dark a)
unfolding rgb_to_rgbw
rgb_to_rgbw-IsByteRgbw c h subtracts = omega arith
rgb_to_rgbw-IsByteRgbw c h leaves = omega arith

add_white-rgb_to_rgbw :
    {a : WhiteAlgorithm} (c : ColorRgb)
    → IsByteColor c
    → IsImplemented a
    → add_white (rgb_to_rgbw c dark a) ≡ c
unfolding rgb_to_rgbw add_white
add_white-rgb_to_rgbw c h subtracts = ground arith
add_white-rgb_to_rgbw c h leaves = ground arith

color_bits-lt : (c : ColorRgbw) → color_bits c < power 16
unfolding color_bits
color_bits-lt c = omega arith

to_color-color_bits : (c : ColorRgbw) → IsByteRgbw c → to_color (color_bits c) ≡ c
unfolding to_color color_bits
to_color-color_bits c h = ground arith

-- The bytes on the bus for some colors.
abbrev pub encoded : WhiteAlgorithm → List ColorRgb → List ℕ
encoded a [] = []
encoded a (c ∷ cs) = pairs 16 (color_bits (rgb_to_rgbw c dark a)) ++ encoded a cs

pub drop-append : (xs ys : List ℕ) → drop (length xs) (xs ++ ys) ≡ ys
drop-append [] ys = refl
drop-append (x ∷ xs) ys = drop-append xs ys

pub read_leds-encoded :
    {a : WhiteAlgorithm} (cs : List ColorRgb) (more : List ℕ)
    → All IsByteColor cs
    → IsImplemented a
    → map add_white (read_leds (length cs) (encoded a cs ++ more)) ≡ cs
unfolding read_leds
read_leds-encoded [] more h i = refl
read_leds-encoded {a} (c ∷ cs) more h i =
    let rgbw = rgb_to_rgbw c dark a in
    let code = pairs 16 (color_bits rgbw) in
    let rest = encoded a cs ++ more in
    let size = length-pairs 16 (color_bits rgbw) in
    let whole : (code ++ encoded a cs) ++ more ≡ code ++ rest =
      append_assoc code (encoded a cs) more in
    let head : take 16 (code ++ rest) ≡ code =
      subst (λ k. take k (code ++ rest) ≡ code) size (take-append code rest) in
    let tail : drop 16 (code ++ rest) ≡ rest =
      subst (λ k. drop k (code ++ rest) ≡ rest) size (drop-append code rest) in
    let number : read_pairs 0 code ≡ color_bits rgbw =
      read_pairs-pairs 16 0 (color_bits rgbw) (color_bits-lt rgbw) ∙ omega arith in
    let color = to_color-color_bits rgbw (rgb_to_rgbw-IsByteRgbw c h.0 i) in
    rw
      (
        whole,
        head,
        tail,
        number,
        color,
        add_white-rgb_to_rgbw c h.0 i,
        read_leds-encoded cs more h.1 i,
      )
      refl

pub length-encoded :
    (a : WhiteAlgorithm) (cs : List ColorRgb) → length (encoded a cs) ≡ 16 * length cs
length-encoded a [] = refl
length-encoded a (c ∷ cs) =
    length-append (pairs 16 (color_bits (rgb_to_rgbw c dark a))) (encoded a cs)
    ∙ omega (arith, length-pairs 16 (color_bits (rgb_to_rgbw c dark a)), length-encoded a cs)

pub lists : (b p e m : List ℕ) → (b ++ p) ++ (e ++ m) ≡ b ++ ((p ++ e) ++ m)
lists b p e m = simp append_assoc

-- The loop over the colors fills the buffer from the pointer on.
