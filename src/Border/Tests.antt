-- ===== src/Border/Tests.antt =====
-- The black border detection (include/blackborder) on a picture of nine by nine pixels with a black
-- frame of two pixels.
use hyperion_ng_beta.Prelude.{
  pos, List, [], ◌∷◌, ◌++◌, some, true, false, ◌≡◌, refl, arith, ◌+◌, replicate, eqb_ℤ,
}
use hyperion_ng_beta.Color.{ColorRgb, black}
use hyperion_ng_beta.Image.{Image}
use hyperion_ng_beta.Border.{BlackBorder, border_eq, process, process_classic, column_lit, row_lit}
use hyperion_ng_beta.Border.Detect.{
  IsPicture, Finds, ClassicBorder, process-Finds, process_classic-ClassicBorder,
}
use hyperion_ng_beta.Border.Processor
use hyperion_ng_beta.Border.Processor.{BlackBorderProcessor, feed, set_enabled}
use hyperion_ng_beta.Border.Processor.Stable.{feed_inconsistent}
use hyperion_ng_beta.Border.Processor.Open.{switch_cnt}
use hyperion_ng_beta.Border.Processor.Settle.{feed-settles}

abbrev white : ColorRgb
white = record { red = 200; green = 200; blue = 200 }

abbrev dark_row : List ColorRgb
dark_row = replicate 9 black

abbrev lit_row : List ColorRgb
lit_row = black ∷ black ∷ white ∷ white ∷ white ∷ white ∷ white ∷ black ∷ black ∷ []

abbrev pub framed : Image
framed = record {
  width = 9;
  height = 9;
  pixels =
      dark_row ++ dark_row ++ lit_row ++ lit_row ++ lit_row ++ lit_row ++ lit_row ++ dark_row
      ++ dark_row;
}

pub framed-IsPicture : IsPicture framed
framed-IsPicture = (record { full = refl; small = omega arith }, omega arith, omega arith)

process_example :
    (b : BlackBorder) × (process 3 framed ≡ some b)
    × Finds (column_lit 3 framed) (λ x. row_lit 3 framed) framed b
process_example = process-Finds 3 framed framed-IsPicture

process_classic_example :
    (b : BlackBorder) × (process_classic 3 framed ≡ some b) × ClassicBorder 3 framed b
process_classic_example = process_classic-ClassicBorder 3 framed framed-IsPicture

abbrev found : BlackBorder
found = record { unknown = false; horizontal_size = pos 2; vertical_size = pos 2 }

abbrev other : BlackBorder
other = record { unknown = false; horizontal_size = pos 1; vertical_size = pos 2 }

abbrev pub new_processor : BlackBorderProcessor
new_processor = Processor.init true 600 50 10 1 "default" (pos 13)

abbrev settled : BlackBorderProcessor
settled = record new_processor {
  previous_detected_border = found;
  current_border = found;
  inconsistent_cnt = 0;
}

feed_inconsistent_example :
    feed (other ∷ other ∷ []) settled ≡ record settled { inconsistent_cnt = 2 }
unfolding border_eq eqb_ℤ Processor.init
feed_inconsistent_example =
    feed_inconsistent (other ∷ other ∷ []) settled (omega arith) (omega arith) (refl, (refl, tt))

feed-settles_example :
    border_eq
      (feed
        (replicate (10 + 2 + switch_cnt new_processor found) found)
        new_processor).current_border
      found
    ≡ true
unfolding Processor.init
feed-settles_example =
    feed-settles true 600 50 10 1 "default" (pos 13) [] new_processor found refl (omega arith)
      (omega arith) (omega arith)
