-- ===== src/Wire/Tests.antt =====
-- The byte order of include/hyperion/LedString.h on an example.
use hyperion_ng_beta.Prelude.{◌≡◌, [], ◌∷◌}
use hyperion_ng_beta.Color.{ColorRgb}
use hyperion_ng_beta.Leds.Led.{order_brg, color_order_to_string}
use hyperion_ng_beta.Wire.{reorder}
use hyperion_ng_beta.Wire.Order.{named_all, reorder-letters}

abbrev orange : ColorRgb
orange = record { red = 250; green = 90; blue = 5 }

reorder_example :
    (reorder order_brg orange).red
      ∷ (reorder order_brg orange).green
      ∷ (reorder order_brg orange).blue
      ∷ []
    ≡ named_all (color_order_to_string order_brg) orange
reorder_example = reorder-letters order_brg orange
