-- ===== src/Leds/ImageToLedsMap.antt =====
-- include/hyperion/ImageToLedsMap.h and libsrc/hyperion/ImageToLedsMap.cpp: the pixels of each led.
use Prim.Native.Nat.{min}
use hyperion_ng_beta.Prelude.{
  ℕ, zero, suc, ◌+◌, ◌-◌, ◌*◌, ◌/◌, ◌%◌, ◌&&◌, ◌||◌, if◌then◌else◌, ltb, ◌==◌, List, [], ◌∷◌, ◌++◌,
  map, Option, none, some, ◌>>=◌, length, replicate, u32,
}
use hyperion_ng_beta.Color.{ColorRgb, black}
use hyperion_ng_beta.Image.{Image, pixel_at}
use hyperion_ng_beta.Leds.Led.{Fractions, Led}

pub record ImageToLedsMap : Type 0 where
  pub width : ℕ
  pub height : ℕ
  pub horizontal_border : ℕ
  pub vertical_border : ℕ
  pub colors_map : List (List ℕ)

-- The offsets of `n` pixels of a row, from column `x`.
unfoldable pub row_offsets : ℕ → ℕ → ℕ → ℕ → List ℕ
row_offsets width y x zero = []
row_offsets width y x (suc n) = (y * width + x) % u32 ∷ row_offsets width y (x + 1) n

-- The offsets of a rectangle of `m` rows, from row `y`, and `n` columns, from column `x`.
unfoldable pub rect_offsets : ℕ → ℕ → ℕ → ℕ → ℕ → List ℕ
rect_offsets width x n y zero = []
rect_offsets width x n y (suc m) = row_offsets width y x n ++ rect_offsets width x n (y + 1) m

-- The bounds along one axis: an offset, the size that the fractions are taken of, and the ends of
-- the led. The first index is moved inside, and the end is moved behind an equal first index.
unfoldable pub first_idx : ℕ → ℕ → ℕ → ℕ
first_idx offset size lo = min (offset + lo) (offset + size - 1)

unfoldable pub last_idx : ℕ → ℕ → ℕ → ℕ → ℕ
unfolding first_idx
last_idx offset size lo hi =
    let first = first_idx offset size lo in if first == offset + hi then first + 1 else offset + hi

module _ (f : Fractions) where
  -- The pixels of one led: the rounds of each loop go on while the index is below both limits.
  unfoldable pub led_offsets : ℕ → ℕ → ℕ → ℕ → Led f → List ℕ
  led_offsets width height horizontal_border vertical_border led =
      let x_offset = vertical_border in
      let actual_width = width - 2 * vertical_border in
      let y_offset = horizontal_border in
      let actual_height = height - 2 * horizontal_border in
      let min_x = first_idx x_offset actual_width (f.scale actual_width led.min_x_frac) in
      let max_x =
        last_idx x_offset actual_width (f.scale actual_width led.min_x_frac)
          (f.scale actual_width led.max_x_frac) in
      let min_y = first_idx y_offset actual_height (f.scale actual_height led.min_y_frac) in
      let max_y =
        last_idx y_offset actual_height (f.scale actual_height led.min_y_frac)
          (f.scale actual_height led.max_y_frac) in
      if f.tiny led.min_x_frac led.max_x_frac || f.tiny led.min_y_frac led.max_y_frac
      then []
      else rect_offsets width min_x (min max_x (x_offset + actual_width) - min_x) min_y
          (min max_y (y_offset + actual_height) - min_y)

  -- The constructor, for borders below 2^31; `none` is a failed `assert`.
  unfoldable pub new_map : ℕ → ℕ → ℕ → ℕ → List (Led f) → Option ImageToLedsMap
  new_map width height horizontal_border vertical_border leds =
      if ltb (2 * vertical_border) width && ltb (2 * horizontal_border) height
      then some (record {
        width = width;
        height = height;
        horizontal_border = horizontal_border;
        vertical_border = vertical_border;
        colors_map = map (led_offsets width height horizontal_border vertical_border) leds;
      })
      else none

-- The sums of the channels, as `uint_fast16_t`, a type of `modulus` values.
pub record Sums : Type 0 where
  pub red : ℕ
  pub green : ℕ
  pub blue : ℕ

abbrev pub no_sums : Sums
no_sums = record { red = 0; green = 0; blue = 0 }

unfoldable pub add_pixel : ℕ → Sums → ColorRgb → Sums
add_pixel modulus s c = record {
  red = (s.red + c.red) % modulus;
  green = (s.green + c.green) % modulus;
  blue = (s.blue + c.blue) % modulus;
}

unfoldable pub sum_colors : ℕ → Image → List ℕ → Sums → Option Sums
sum_colors modulus image [] s = some s
sum_colors modulus image (o ∷ os) s = do
  c ← pixel_at image o
  sum_colors modulus image os (add_pixel modulus s c)

unfoldable pub average : ℕ → Sums → ColorRgb
average n s = record { red = s.red / n % 256; green = s.green / n % 256; blue = s.blue / n % 256 }

-- `calcMeanColor` of the pixels of a led; `none` is a read outside of the picture.
unfoldable pub calc_mean_color : ℕ → Image → List ℕ → Option ColorRgb
calc_mean_color modulus image [] = some black
calc_mean_color modulus image (o ∷ os) = do
  s ← sum_colors modulus image (o ∷ os) no_sums
  some (average (length (o ∷ os)) s)

unfoldable pub mean_colors : ℕ → Image → List (List ℕ) → Option (List ColorRgb)
mean_colors modulus image [] = some []
mean_colors modulus image (os ∷ rest) = do
  c ← calc_mean_color modulus image os
  cs ← mean_colors modulus image rest
  some (c ∷ cs)

unfoldable pub get_mean_led_color : ℕ → ImageToLedsMap → Image → Option (List ColorRgb)
get_mean_led_color modulus m image = mean_colors modulus image m.colors_map

-- The `n` offsets from `x` on.
unfoldable pub offsets_from : ℕ → ℕ → List ℕ
offsets_from x zero = []
offsets_from x (suc n) = x ∷ offsets_from (x + 1) n

-- `calcMeanColor` of a whole picture; `none` is a division by zero or a read outside of the picture.
unfoldable pub calc_uni_color : ℕ → Image → Option ColorRgb
calc_uni_color modulus image =
    let image_size = image.width * image.height % u32 in
    if image_size == 0 then none else do
      s ← sum_colors modulus image (offsets_from 0 image_size) no_sums
      some (average image_size s)

unfoldable pub get_uni_led_color : ℕ → ImageToLedsMap → Image → Option (List ColorRgb)
get_uni_led_color modulus m image = do
  c ← calc_uni_color modulus image
  some (replicate (length m.colors_map) c)
