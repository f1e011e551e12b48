-- ===== src/Leds/Tests.antt =====
-- The mapping of a picture to the leds (include/hyperion) on two leds and a small picture.
use hyperion_ng_beta.Prelude.{
  ℕ, negsuc, List, [], ◌∷◌, some, true, ◌≡◌, refl, arith, ◌*◌, ◌<◌, length, All, ◌⊎◌, ◌↔◌, inl,
}
use hyperion_ng_beta.Color.{ColorRgb, black}
use hyperion_ng_beta.Image.{Image}
use hyperion_ng_beta.Border.Processor
use hyperion_ng_beta.Border.Processor.{BlackBorderProcessor, unknown_border}
use hyperion_ng_beta.Border.Tests.{framed, framed-IsPicture, new_processor}
use hyperion_ng_beta.Leds.Led.{Led, percent, order_rgb}
use hyperion_ng_beta.Leds.ImageToLedsMap.{ImageToLedsMap, led_offsets, calc_mean_color}
use hyperion_ng_beta.Leds.Area.{led_offsets_lem}
use hyperion_ng_beta.Leds.Mean.{pixels_of, IsMean, calc_mean_color-IsMean}
use hyperion_ng_beta.Leds.ImageProcessor
use hyperion_ng_beta.Leds.ImageProcessor.{ImageProcessor, process, get_led_count}
use hyperion_ng_beta.Leds.Prepared.{Prepared, HasRoom}
use hyperion_ng_beta.Leds.Safe.{process-Prepared}

abbrev left : Led percent
left = record {
  index = 0;
  min_x_frac = 0;
  max_x_frac = 50;
  min_y_frac = 0;
  max_y_frac = 100;
  clone = negsuc 0;
  color_order = order_rgb;
}

abbrev right : Led percent
right = record left { index = 1; min_x_frac = 50; max_x_frac = 100 }

led_offsets_example :
    let offsets = led_offsets percent 9 9 1 1 left in
    All (λ o. o < 9 * 9) offsets
    × ((length offsets ≡ 0) ↔ ((percent.tiny 0 50 ≡ true) ⊎ (percent.tiny 0 100 ≡ true)))
led_offsets_example = led_offsets_lem percent 9 9 1 1 left (omega arith) (omega arith) (omega arith)

abbrev two_pixels : Image
two_pixels = record {
  width = 2;
  height = 1;
  pixels = record { red = 255; green = 2; blue = 3 } ∷ record { red = 5; green = 6; blue = 4 } ∷ [];
}

abbrev two_offsets : List ℕ
two_offsets = 0 ∷ 1 ∷ []

-- The sums fit, although those of two bytes need not.
calc_mean_color_example :
    (c : ColorRgb) × (calc_mean_color 261 two_pixels two_offsets ≡ some c)
    × (((two_offsets ≡ []) × (c ≡ black))
        ⊎ ((0 < length two_offsets) × IsMean (pixels_of two_pixels two_offsets) c))
calc_mean_color_example =
    calc_mean_color-IsMean 261 two_pixels two_offsets
      ((omega arith, omega arith, omega arith), ((omega arith, omega arith, omega arith), tt))
      (omega arith, (omega arith, tt)) (omega arith) (omega arith) (omega arith)

abbrev start : ImageProcessor percent
start =
    ImageProcessor.init percent (left ∷ right ∷ []) (record new_processor { blur_remove_cnt = 1 })

framed-HasRoom : HasRoom percent framed start.border_processor
unfolding ImageProcessor.init Processor.init
framed-HasRoom = record {
  detects = inl refl;
  wide = omega arith;
  high = omega arith;
  wide_int = omega arith;
  high_int = omega arith;
}

process-Prepared_example :
    (t : ImageProcessor percent) × (colors : List ColorRgb) × (m : ImageToLedsMap) × (process
        percent 65536 unknown_border framed start
      ≡ some (t, colors))
    × (length colors ≡ get_led_count percent start)
    × Prepared percent framed start (t, m)
unfolding ImageProcessor.init Processor.init
process-Prepared_example =
    process-Prepared percent 65536 unknown_border framed start framed-IsPicture framed-HasRoom tt
