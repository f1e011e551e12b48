-- ===== src/Resampler/Tests.antt =====
-- Runs of the resampler.
use hyperion_ng_beta.Prelude.{
  codes, ℕ, ◌+◌, ◌*◌, ◌/◌, List, [], ◌∷◌, some, take, length, replicate, length-replicate, ◌≡◌,
  refl, Gives, inr, arith, ◌≢◌, ◌-ℤ◌, ◌+ℤ◌,
}
use hyperion_ng_beta.Color.{ColorRgb, black}
use hyperion_ng_beta.Image.{Image}
use hyperion_ng_beta.Resampler
use hyperion_ng_beta.Resampler.{
  ImageResampler, PixelFormat, bgr24, process_image, video_2d, parse_3d_mode, parse_pixel_format,
  right_of, bottom_of,
}
use hyperion_ng_beta.Resampler.Modes.{parse_3d_mode-video_2d}
use hyperion_ng_beta.Resampler.Reads.{IsFrame}
use hyperion_ng_beta.Resampler.Rows.{rows_of}
use hyperion_ng_beta.Resampler.Samples.{IsSetUp, out_width, out_height, process_image-Samples}

-- Three columns and two rows, and every second pixel.
abbrev small_frame : List ℕ
small_frame = 1 ∷ 2 ∷ 3 ∷ 4 ∷ 5 ∷ 6 ∷ 7 ∷ 8 ∷ 9 ∷ 11 ∷ 12 ∷ 13 ∷ 14 ∷ 15 ∷ 16 ∷ 17 ∷ 18 ∷ 19 ∷ []

abbrev halving : ImageResampler
halving = record Resampler.init { horizontal_decimation = 2; vertical_decimation = 2 }

abbrev empty_image : Image
empty_image = record { width = 3; height = 3; pixels = [] }

abbrev blank : ℕ → List ColorRgb
blank n = replicate n black

length-blank : (n : ℕ) → length (blank n) ≡ n
length-blank n = length-replicate {A = ColorRgb} n black

process_image_run :
    process_image blank small_frame 3 2 9 bgr24 empty_image halving
    ≡ some
        (record { width = 1; height = 1; pixels = record { red = 16; green = 15; blue = 14 } ∷ [] })
unfolding process_image ◌-ℤ◌ ◌+ℤ◌
process_image_run = refl

halving-IsSetUp : IsSetUp halving 3 2
unfolding right_of bottom_of
halving-IsSetUp = record {
  across = omega arith;
  down = omega arith;
  columns = omega arith;
  rows = omega arith;
}

small_frame-IsFrame : IsFrame bgr24 small_frame 9 3 2
small_frame-IsFrame = record {
  captured = tt;
  line = omega arith;
  lines = omega arith;
  bytes = omega arith;
}

empty_image-differs : (3 ≢ out_width halving 3) × (3 ≢ out_height halving 2)
unfolding right_of bottom_of
empty_image-differs = omega arith

process_image-Samples_example :
    Gives
      (λ i.
        (i.width ≡ out_width halving 3)
        × (i.height ≡ out_height halving 2)
        × (take (out_width halving 3 * out_height halving 2) i.pixels
            ≡ rows_of small_frame 9 bgr24
                (out_height halving 2)
                (0 + 2 / 2)
                2
                (out_width halving 3)
                (0 + 2 / 2)
                2))
      (process_image blank small_frame 3 2 9 bgr24 empty_image halving)
process_image-Samples_example =
    process_image-Samples blank small_frame 3 2 9 bgr24 empty_image halving length-blank
      small_frame-IsFrame halving-IsSetUp (omega arith) (omega arith) (inr empty_image-differs)

parse_3d_mode-video_2d_example : parse_3d_mode (codes "3DSBS") ≡ video_2d
parse_3d_mode-video_2d_example = parse_3d_mode-video_2d (codes "3DSBS")

parse_pixel_format_run : parse_pixel_format (codes "BGR24") ≡ bgr24
unfolding parse_pixel_format
parse_pixel_format_run = refl
