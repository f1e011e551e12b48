-- ===== src/Resampler.antt =====
-- libsrc/utils/ImageResampler.cpp with include/utils/PixelFormat.h and VideoMode.h: a picture from the
-- bytes of a captured frame, of which every so many pixels are taken. The sizes and the cropping are
-- numbers that are not negative, the offsets into the frame do not overflow an int; `none` is a
-- division by zero, or an access outside of the frame or of the picture.
use hyperion_ng_beta.Prelude.{
  ℕ, zero, suc, ℤ, pos, negsuc, ◌+◌, ◌-◌, ◌*◌, ◌/◌, ◌%◌, ◌==◌, ltb, ◌+ℤ◌, ◌-ℤ◌, ◌*ℤ◌, u32, Bool,
  not, ◌&&◌, if◌then◌else◌, List, Option, none, some, ◌>>=◌, get_elem?, leb, true, false, codes,
  eq_bytes, map, [], ◌∷◌,
}
use hyperion_ng_beta.Color.{ColorRgb}
use hyperion_ng_beta.Image.{Image, pixel, set_pixel, resize}
pub mod Modes
pub mod Sizes
pub mod Reads
pub mod Rows
pub mod Samples
pub mod Tests

pub data PixelFormat : Type 0 where
  yuyv uyvy bgr16 bgr24 rgb32 bgr32 no_change : PixelFormat

pub data VideoMode : Type 0 where
  video_2d video_3dsbs video_3dtab : VideoMode

-- std::tolower on a byte.
unfoldable pub tolower : ℕ → ℕ
tolower c = if leb b'A' c && leb c b'Z' then c + 32 else c

unfoldable pub parse_pixel_format : List ℕ → PixelFormat
unfolding tolower eq_bytes
parse_pixel_format text =
    let s = map tolower text in
    if eq_bytes s (codes "yuyv")
    then yuyv
    else if eq_bytes s (codes "uyvy")
    then uyvy
    else if eq_bytes s (codes "bgr16")
    then bgr16
    else if eq_bytes s (codes "bgr24")
    then bgr24
    else if eq_bytes s (codes "rgb32")
    then rgb32
    else if eq_bytes s (codes "bgr32")
    then bgr32
    else no_change

unfoldable pub parse_3d_mode : List ℕ → VideoMode
unfolding tolower eq_bytes
parse_3d_mode text =
    let s = map tolower text in
    if eq_bytes s (codes "3DTAB")
    then video_3dtab
    else if eq_bytes s (codes "3DSBS")
    then video_3dsbs
    else video_2d

pub record ImageResampler : Type 0 where
  pub horizontal_decimation : ℕ
  pub vertical_decimation : ℕ
  pub crop_left : ℕ
  pub crop_right : ℕ
  pub crop_top : ℕ
  pub crop_bottom : ℕ
  pub video_mode : VideoMode

abbrev pub init : ImageResampler
init = record {
  horizontal_decimation = 1;
  vertical_decimation = 1;
  crop_left = 0;
  crop_right = 0;
  crop_top = 0;
  crop_bottom = 0;
  video_mode = video_2d;
}

unfoldable pub set_horizontal_pixel_decimation : ℕ → ImageResampler → ImageResampler
set_horizontal_pixel_decimation decimator r = record r { horizontal_decimation = decimator }

unfoldable pub set_vertical_pixel_decimation : ℕ → ImageResampler → ImageResampler
set_vertical_pixel_decimation decimator r = record r { vertical_decimation = decimator }

unfoldable pub set_cropping : ℕ → ℕ → ℕ → ℕ → ImageResampler → ImageResampler
set_cropping left right top bottom r = record r {
  crop_left = left;
  crop_right = right;
  crop_top = top;
  crop_bottom = bottom;
}

unfoldable pub set_3d : VideoMode → ImageResampler → ImageResampler
set_3d mode r = record r { video_mode = mode }

-- The cropping of the right and of the bottom, with the 3D mode.
unfoldable pub right_of : VideoMode → ℕ → ℕ → ℕ
right_of video_3dsbs width crop = width / 2
right_of _ width crop = crop

unfoldable pub bottom_of : VideoMode → ℕ → ℕ → ℕ
bottom_of video_3dtab height crop = height / 2
bottom_of _ height crop = crop

-- (size - low - high - d / 2 + d - 1) / d, which rounds towards zero.
unfoldable pub quotient : ℤ → ℕ → ℤ
quotient (pos n) d = pos (n / d)
quotient (negsuc n) d = pos 0 -ℤ pos (suc n / d)

unfoldable pub output_size : ℕ → ℕ → ℕ → ℕ → ℤ
unfolding quotient
output_size size low high d =
    quotient (pos size -ℤ pos low -ℤ pos high -ℤ pos (d / 2) +ℤ pos d -ℤ pos 1) d

-- Shifting an int by 8 rounds down.
unfoldable pub shift_8 : ℤ → ℤ
shift_8 (pos n) = pos (n / 256)
shift_8 (negsuc n) = negsuc (n / 256)

unfoldable pub clamp : ℤ → ℕ
clamp (negsuc n) = 0
clamp (pos n) = if ltb 255 n then 255 else n

unfoldable pub yuv2rgb : ℕ → ℕ → ℕ → ColorRgb
unfolding shift_8 clamp
yuv2rgb y u v =
    let c = pos y -ℤ pos 16 in
    let d = pos u -ℤ pos 128 in
    let e = pos v -ℤ pos 128 in
    record {
      red = clamp (shift_8 (pos 298 *ℤ c +ℤ pos 409 *ℤ e +ℤ pos 128));
      green = clamp (shift_8 (pos 298 *ℤ c -ℤ pos 100 *ℤ d -ℤ pos 208 *ℤ e +ℤ pos 128));
      blue = clamp (shift_8 (pos 298 *ℤ c +ℤ pos 516 *ℤ d +ℤ pos 128));
    }

-- The pixel of the frame at a place, where `old` is what the picture holds. Bits that do not overlap
-- are added.
unfoldable pub read_pixel : List ℕ → ℕ → PixelFormat → ℕ → ℕ → ColorRgb → Option ColorRgb
unfolding yuv2rgb
read_pixel frame line_length uyvy x y old =
    let index = line_length * y + x * 2 in
    let even = x % 2 == 0 in
    do
      l ← get_elem? frame (index + 1)
      u ← get_elem? frame (if even then index else index - 2)
      v ← get_elem? frame (if even then index + 2 else index)
      some (yuv2rgb l u v)
read_pixel frame line_length yuyv x y old =
    let index = line_length * y + x * 2 in
    let even = x % 2 == 0 in
    do
      l ← get_elem? frame index
      u ← get_elem? frame (if even then index + 1 else index - 1)
      v ← get_elem? frame (if even then index + 3 else index + 1)
      some (yuv2rgb l u v)
read_pixel frame line_length bgr16 x y old =
    let index = line_length * y + x * 2 in
    do
      a ← get_elem? frame index
      b ← get_elem? frame (index + 1)
      some (record { red = b / 8 * 8; green = (b % 8 * 8 + a / 32) * 4; blue = a % 32 * 8 })
read_pixel frame line_length bgr24 x y old =
    let index = line_length * y + x * 3 in
    do
      b ← get_elem? frame index
      g ← get_elem? frame (index + 1)
      r ← get_elem? frame (index + 2)
      some (record { red = r; green = g; blue = b })
read_pixel frame line_length rgb32 x y old =
    let index = line_length * y + x * 4 in
    do
      r ← get_elem? frame index
      g ← get_elem? frame (index + 1)
      b ← get_elem? frame (index + 2)
      some (record { red = r; green = g; blue = b })
read_pixel frame line_length bgr32 x y old =
    let index = line_length * y + x * 4 in
    do
      b ← get_elem? frame index
      g ← get_elem? frame (index + 1)
      r ← get_elem? frame (index + 2)
      some (record { red = r; green = g; blue = b })
read_pixel frame line_length no_change x y old = some old

module _ (frame : List ℕ) (line_length : ℕ) (format : PixelFormat) where
  -- `n` rounds of the loop on the pixels of a row.
  unfoldable pub sample_row : ℕ → ℕ → ℕ → ℕ → ℕ → ℕ → Image → Option Image
  unfolding read_pixel pixel set_pixel
  sample_row zero x_dest x_source y_dest y_source step image = some image
  sample_row (suc n) x_dest x_source y_dest y_source step image = do
    old ← pixel image x_dest y_dest
    rgb ← read_pixel frame line_length format x_source y_source old
    image' ← set_pixel image x_dest y_dest rgb
    sample_row n (x_dest + 1) (x_source + step) y_dest y_source step image'

  -- `n` rounds of the loop on the rows, each of `width` pixels from `left` on.
  unfoldable pub sample_rows : ℕ → ℕ → ℕ → ℕ → ℕ → ℕ → ℕ → Image → Option Image
  unfolding sample_row
  sample_rows zero y_dest y_source step width left step_x image = some image
  sample_rows (suc n) y_dest y_source step width left step_x image = do
    image' ← sample_row width 0 left y_dest y_source step_x image
    sample_rows n (y_dest + 1) (y_source + step) step width left step_x image'

-- The rounds of a loop up to an int, and its conversion to unsigned.
unfoldable pub rounds : ℤ → ℕ
rounds (pos n) = n
rounds (negsuc n) = 0

unfoldable pub to_uint : ℤ → ℕ
to_uint (pos n) = n % u32
to_uint (negsuc n) = u32 - 1 - n % u32

unfoldable pub process_image :
    (ℕ → List ColorRgb) → List ℕ → ℕ → ℕ → ℕ → PixelFormat → Image → ImageResampler → Option Image
unfolding right_of bottom_of output_size rounds to_uint resize sample_rows
process_image memory frame width height line_length format image r =
    let dx = r.horizontal_decimation in
    let dy = r.vertical_decimation in
    let out_width = output_size width r.crop_left (right_of r.video_mode width r.crop_right) dx in
    let out_height =
      output_size height r.crop_top (bottom_of r.video_mode height r.crop_bottom) dy in
    let image' =
      if not (image.height == to_uint out_height) && not (image.width == to_uint out_width)
      then resize memory (to_uint out_width) (to_uint out_height) image
      else image in
    if dx == 0
    then none
    else if dy == 0
    then none
    else sample_rows frame line_length format (rounds out_height) 0 (r.crop_top + dy / 2) dy
        (rounds out_width) (r.crop_left + dx / 2) dx image'
