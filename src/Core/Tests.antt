-- ===== src/Core/Tests.antt =====
-- The core (libsrc/hyperion/Hyperion.cpp) on two leds with a clone.
use hyperion_ng_beta.Prelude.{
  ℕ, ℤ, pos, negsuc, List, [], ◌∷◌, some, true, false, ◌≡◌, refl, replicate, All, length, arith,
}
use hyperion_ng_beta.Color.{ColorRgb}
use hyperion_ng_beta.Components.{comp_grabber, comp_invalid}
use hyperion_ng_beta.QMap.{is_some}
use hyperion_ng_beta.Muxer.{get_input_info}
use hyperion_ng_beta.Muxer.Invariant
use hyperion_ng_beta.Adjust.Doubles.{whole}
use hyperion_ng_beta.Adjust.Multi.{verify_adjustments, verify_leds}
use hyperion_ng_beta.Adjust.Tests.{two_adjusted}
use hyperion_ng_beta.Leds.Led.{Led, percent, order_grb}
use hyperion_ng_beta.Forwarder.Tests.{read_port, forwards, forwards-AllAddresses}
use hyperion_ng_beta.Core
use hyperion_ng_beta.Core.{Hyperion, construct}
use hyperion_ng_beta.Core.Sources.{write_size, colors_of}
use hyperion_ng_beta.Core.Requests.{
  Request, sets_color, sets_colors, clears, clears_all, selects_source, selects_auto, smooths,
  updates, run, run-construct,
}

abbrev led : ℕ → ℤ → Led percent
led i c = record {
  index = i;
  min_x_frac = 0;
  max_x_frac = 50;
  min_y_frac = 0;
  max_y_frac = 50;
  clone = c;
  color_order = order_grb;
}

abbrev pub leds : List (Led percent)
leds = led 0 (negsuc 0) ∷ led 1 (negsuc 0) ∷ []

abbrev pub clones : List (Led percent)
clones = led 1 (pos 0) ∷ []

abbrev pub orange : ColorRgb
orange = record { red = 250; green = 90; blue = 5 }

abbrev requests : List (Request 2)
requests =
    sets_color (pos 100) (pos 100) (pos 101) (pos 50) orange (pos 500) true (λ e. ground arith)
    ∷ sets_colors (pos 200) (pos 200) (pos 201) (pos 60) (replicate 2 orange) (negsuc 0) false
        comp_grabber refl (λ e. ground arith)
    ∷ selects_source (pos 60)
    ∷ updates (pos 700) (pos 701)
    ∷ clears (pos 800) (pos 801) (pos 60)
    ∷ smooths true
    ∷ selects_auto (pos 850) (pos 851) false
    ∷ clears_all (pos 900) (pos 901)
    ∷ []

run-construct_example :
    (t : Hyperion whole percent) × (run whole percent
        (construct whole percent read_port forwards
          (pos 0)
          (pos 1)
          leds
          clones
          two_adjusted
          (some (pos 4))
          false
          comp_invalid
          (pos 0))
        requests
      ≡ some t)
    × Invariant.IsValid t.muxer
    × (is_some (get_input_info t.muxer (Core.get_current_priority whole percent t)) ≡ true)
    × All (λ w. length (colors_of w) ≡ write_size whole percent 2 t) t.writes
unfolding verify_adjustments verify_leds
run-construct_example =
    run-construct whole percent read_port forwards (pos 0) (pos 1) leds clones two_adjusted
      (some (pos 4)) false comp_invalid (pos 0) requests forwards-AllAddresses
      (omega arith, (0, refl, omega arith), tt) refl
