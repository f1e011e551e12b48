-- ===== src/Resampler/Reads.antt =====
-- The bytes of the frame that libsrc/utils/ImageResampler.cpp reads for one pixel.
use hyperion_ng_beta.Prelude.{
  ℕ, ◌+◌, ◌-◌, ◌*◌, ◌/◌, ◌%◌, ◌≤◌, ◌<◌, ◌==◌, if◌then◌else◌, List, some, length, get_elem?, get_or,
  get_elem?-get_or, ◌≡◌, refl, arith, All, zero, suc, [], ◌∷◌,
}
use hyperion_ng_beta.Color.{ColorRgb}
use hyperion_ng_beta.Resampler.{
  PixelFormat, yuyv, uyvy, bgr16, bgr24, rgb32, bgr32, no_change, yuv2rgb, read_pixel,
}

abbrev pub bytes_per_pixel : PixelFormat → ℕ
bytes_per_pixel uyvy = 2
bytes_per_pixel yuyv = 2
bytes_per_pixel bgr16 = 2
bytes_per_pixel bgr24 = 3
bytes_per_pixel rgb32 = 4
bytes_per_pixel bgr32 = 4
bytes_per_pixel no_change = 0

-- Two neighbours share their colors in the formats of YUV, so that the width is even there.
abbrev pub IsCaptured : PixelFormat → ℕ → Type 0
IsCaptured uyvy width = width % 2 ≡ 0
IsCaptured yuyv width = width % 2 ≡ 0
IsCaptured no_change width = ⊥
IsCaptured _ width = Unit

-- A frame with lines of at least `width` pixels.
pub record IsFrame (format : PixelFormat) (frame : List ℕ) (line_length width height : ℕ)
    : Type 0 where
  pub captured : IsCaptured format width
  pub line : bytes_per_pixel format * width ≤ line_length
  pub lines : line_length * height ≤ length frame
  pub bytes : All (λ b. b < 256) frame

get_or-lt : (l : List ℕ) (i : ℕ) → All (λ b. b < 256) l → get_or l i 0 < 256
get_or-lt [] i h = omega arith
get_or-lt (x ∷ l) zero h = h.0
get_or-lt (x ∷ l) (suc i) h = get_or-lt l i h.1

module _ (frame : List ℕ) (line_length : ℕ) where
  abbrev byte_at : ℕ → ℕ
  byte_at i = get_or frame i 0

  -- The color of the pixel in column `x` and row `y`. A pair of neighbours holds U and V once.
  abbrev pub color_at : PixelFormat → ℕ → ℕ → ColorRgb
  color_at uyvy x y =
      let pair = line_length * y + x / 2 * 4 in
      yuv2rgb (byte_at (pair + 1 + x % 2 * 2)) (byte_at pair) (byte_at (pair + 2))
  color_at yuyv x y =
      let pair = line_length * y + x / 2 * 4 in
      yuv2rgb (byte_at (pair + x % 2 * 2)) (byte_at (pair + 1)) (byte_at (pair + 3))
  color_at bgr16 x y =
      let i = line_length * y + x * 2 in
      let word = byte_at (i + 1) * 256 + byte_at i in
      record { red = word / 2048 * 8; green = word / 32 % 64 * 4; blue = word % 32 * 8 }
  color_at bgr24 x y =
      let i = line_length * y + x * 3 in
      record { red = byte_at (i + 2); green = byte_at (i + 1); blue = byte_at i }
  color_at rgb32 x y =
      let i = line_length * y + x * 4 in
      record { red = byte_at i; green = byte_at (i + 1); blue = byte_at (i + 2) }
  color_at bgr32 x y =
      let i = line_length * y + x * 4 in
      record { red = byte_at (i + 2); green = byte_at (i + 1); blue = byte_at i }
  color_at no_change x y = record { red = 0; green = 0; blue = 0 }

  in_line :
      (y height i : ℕ)
      → y < height
      → line_length * height ≤ length frame
      → i < line_length
      → line_length * y + i < length frame
  in_line y height i h l p = grind arith

  module _ {format : PixelFormat} {width height : ℕ}
      (f : IsFrame format frame line_length width height) where
    -- Byte `k` of line `y`, however its index is written.
    read_byte :
        (y k i j : ℕ)
        → y < height
        → k < line_length
        → i ≡ line_length * y + k
        → i ≡ j
        → get_elem? frame i ≡ some (byte_at j)
    read_byte y k i j q l e same =
        rw (← same) (get_elem?-get_or frame i 0 (omega (arith, in_line y height k q f.lines l)))

  first_of_pair : (n x : ℕ) → (if x % 2 == 0 then n + x * 2 else n + x * 2 - 2) ≡ n + x / 2 * 4
  first_of_pair n x = ground arith

  second_of_pair : (n x : ℕ) → (if x % 2 == 0 then n + x * 2 + 2 else n + x * 2) ≡ n + x / 2 * 4 + 2
  second_of_pair n x = ground arith

  first_odd : (n x : ℕ) → (if x % 2 == 0 then n + x * 2 + 1 else n + x * 2 - 1) ≡ n + x / 2 * 4 + 1
  first_odd n x = ground arith

  second_odd : (n x : ℕ) → (if x % 2 == 0 then n + x * 2 + 3 else n + x * 2 + 1) ≡ n + x / 2 * 4 + 3
  second_odd n x = ground arith

  word_fields :
      (a b : ℕ)
      → a < 256
      → b < 256
      → ((b * 256 + a) / 2048 * 8 ≡ b / 8 * 8)
        × ((b * 256 + a) / 32 % 64 * 4 ≡ (b % 8 * 8 + a / 32) * 4)
        × ((b * 256 + a) % 32 * 8 ≡ a % 32 * 8)
  word_fields a b h k = omega arith

  pub read_pixel-color_at :
      (format : PixelFormat) (width height x y : ℕ) (old : ColorRgb)
      → IsFrame format frame line_length width height
      → x < width
      → y < height
      → read_pixel frame line_length format x y old ≡ some (color_at format x y)
  unfolding read_pixel
  read_pixel-color_at uyvy width height x y old f p q =
      let n = line_length * y in
      let pair = n + x / 2 * 4 in
      let even = f.captured in
      let line = f.line in
      rw
        (
          first_of_pair n x,
          second_of_pair n x,
          read_byte f y (x * 2 + 1) (n + x * 2 + 1) (pair + 1 + x % 2 * 2) q (omega arith)
              (omega arith) (omega arith),
          read_byte f y (x / 2 * 4) pair pair q (omega arith) refl refl,
          read_byte f y (x / 2 * 4 + 2) (pair + 2) (pair + 2) q (omega arith) (omega arith) refl,
        )
        refl
  read_pixel-color_at yuyv width height x y old f p q =
      let n = line_length * y in
      let pair = n + x / 2 * 4 in
      let even = f.captured in
      let line = f.line in
      rw
        (
          first_odd n x,
          second_odd n x,
          read_byte f y (x * 2) (n + x * 2) (pair + x % 2 * 2) q (omega arith) refl (omega arith),
          read_byte f y (x / 2 * 4 + 1) (pair + 1) (pair + 1) q (omega arith) (omega arith) refl,
          read_byte f y (x / 2 * 4 + 3) (pair + 3) (pair + 3) q (omega arith) (omega arith) refl,
        )
        refl
  read_pixel-color_at bgr16 width height x y old f p q =
      let i = line_length * y + x * 2 in
      let line = f.line in
      let (r, g, b) =
        word_fields (byte_at i) (byte_at (i + 1)) (get_or-lt frame i f.bytes)
          (get_or-lt frame (i + 1) f.bytes) in
      rw
        (
          read_byte f y (x * 2) i i q (omega arith) refl refl,
          read_byte f y (x * 2 + 1) (i + 1) (i + 1) q (omega arith) (omega arith) refl,
          r,
          g,
          b,
        )
        refl
  read_pixel-color_at bgr24 width height x y old f p q =
      let i = line_length * y + x * 3 in
      let line = f.line in
      rw
        (
          read_byte f y (x * 3) i i q (omega arith) refl refl,
          read_byte f y (x * 3 + 1) (i + 1) (i + 1) q (omega arith) (omega arith) refl,
          read_byte f y (x * 3 + 2) (i + 2) (i + 2) q (omega arith) (omega arith) refl,
        )
        refl
  read_pixel-color_at rgb32 width height x y old f p q =
      let i = line_length * y + x * 4 in
      let line = f.line in
      rw
        (
          read_byte f y (x * 4) i i q (omega arith) refl refl,
          read_byte f y (x * 4 + 1) (i + 1) (i + 1) q (omega arith) (omega arith) refl,
          read_byte f y (x * 4 + 2) (i + 2) (i + 2) q (omega arith) (omega arith) refl,
        )
        refl
  read_pixel-color_at bgr32 width height x y old f p q =
      let i = line_length * y + x * 4 in
      let line = f.line in
      rw
        (
          read_byte f y (x * 4) i i q (omega arith) refl refl,
          read_byte f y (x * 4 + 1) (i + 1) (i + 1) q (omega arith) (omega arith) refl,
          read_byte f y (x * 4 + 2) (i + 2) (i + 2) q (omega arith) (omega arith) refl,
        )
        refl
  read_pixel-color_at no_change width height x y old f p q = absurd f.captured
