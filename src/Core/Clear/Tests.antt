-- ===== src/Core/Clear/Tests.antt =====
-- Clearing a channel of libsrc/hyperion/Hyperion.cpp that is the selected source.
use hyperion_ng_beta.Prelude.{
  pos, negsuc, refl, arith, false, ltb_ℤ, [], none, replicate, Gives, inl,
}
use hyperion_ng_beta.Components.{comp_grabber, comp_invalid}
use hyperion_ng_beta.QMap.{insert}
use hyperion_ng_beta.Forwarder
use hyperion_ng_beta.Muxer
use hyperion_ng_beta.Muxer.{PriorityMuxer, set_input}
use hyperion_ng_beta.Muxer.Invariant.{init-IsValid}
use hyperion_ng_beta.Adjust.Doubles.{whole}
use hyperion_ng_beta.Adjust.Tests.{two_adjusted}
use hyperion_ng_beta.Leds.Led.{percent}
use hyperion_ng_beta.Core.{Hyperion, clear}
use hyperion_ng_beta.Core.Channels.{HasLeds, set_input-HasLeds}
use hyperion_ng_beta.Core.Sources.{IsValid}
use hyperion_ng_beta.Core.Tests.{leds, clones, orange}
use hyperion_ng_beta.Core.Clear.{Without, clear-Without}

abbrev with_grabber : PriorityMuxer
with_grabber =
    set_input (pos 50) (replicate 2 orange) (negsuc 0) comp_grabber (Muxer.init 2 comp_invalid)

init-HasLeds : HasLeds 2 (Muxer.init 2 comp_invalid)
unfolding Muxer.init insert
init-HasLeds = record {
  valid = init-IsValid 2 comp_invalid;
  sized = (refl, tt);
  lowest_sized = refl;
}

-- The grabber is the source that is selected.
abbrev pub selected : Hyperion whole percent
selected = record {
  led_string = leds;
  led_string_clone = clones;
  muxer = with_grabber;
  raw2led_adjustment = two_adjusted;
  message_forwarder = Forwarder.init;
  led_string_color_order = [];
  hw_led_count = 4;
  source_auto_select_enabled = false;
  current_source_priority = pos 50;
  prev_comp_id = comp_invalid;
  smoothing_enabled = false;
  timer = none;
  effect_signals = [];
  writes = [];
}

pub selected-IsValid : IsValid whole percent 2 selected
selected-IsValid = record {
  count = refl;
  muxer =
      set_input-HasLeds 2 (pos 50) (replicate 2 orange) (negsuc 0) comp_grabber
        (Muxer.init 2 comp_invalid) refl (λ e. refl) init-HasLeds;
  placed = (omega arith, (0, refl, omega arith), tt);
  orders = inl refl;
  written = tt;
}

clear-Without_example :
    Gives (Without whole percent 2 (pos 50)) (clear whole percent (pos 7) (pos 8) (pos 50) selected)
unfolding ltb_ℤ
clear-Without_example =
    clear-Without whole percent 2 (pos 7) (pos 8) (pos 50) selected refl selected-IsValid
