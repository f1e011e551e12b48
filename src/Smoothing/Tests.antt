-- ===== src/Smoothing/Tests.antt =====
-- The smoothing (libsrc/hyperion/LinearColorSmoothing.cpp) of one led with a delay of two frames.
use Prim.Native.Nat.{min}
use hyperion_ng_beta.Prelude.{
  ℕ, ℤ, pos, ◌-ℤ◌, ◌≤◌, ◌≤ℤ◌, ◌<ℤ◌, ◌≡◌, refl, arith, true, to_int32, List, [], ◌∷◌, ◌++◌, length,
  replicate, Gives,
}
use hyperion_ng_beta.Color.{ColorRgb, black}
use hyperion_ng_beta.Smoothing.{Floats, LinearColorSmoothing, delta_time, update_leds, switch_off}
use hyperion_ng_beta.Smoothing.Queue.{queue_all, given, queue_all_lem, switch_off_lem}
use hyperion_ng_beta.Smoothing.Moves.{Channels, Nearer}
use hyperion_ng_beta.Smoothing.Steps.{passes, update_leds_lem}

whole_share-le : (delta span : ℤ) (n : ℕ) → pos 0 ≤ℤ delta → delta ≤ℤ span → pos 0 <ℤ span → n ≤ n
whole_share-le delta span n a b c = omega arith

-- Every step takes the whole way.
abbrev at_once : Floats
at_once = record {
  share = λ delta span n. n;
  share-le = whole_share-le;
  share-positive = λ delta span n a b c some_way d. some_way;
  share-whole = λ span n a b. refl;
}

abbrev orange : List ColorRgb
orange = record { red = 250; green = 90; blue = 5 } ∷ []

abbrev moving : LinearColorSmoothing
moving = record {
  settling_time = pos 200;
  target_values = orange;
  target_time = pos 1200;
  previous_values = black ∷ [];
  previous_time = pos 1000;
  output_delay = 2;
  output_queue = (black ∷ []) ∷ [];
  write_to_leds_enable = true;
  continuous_output = true;
  enabled = true;
  timer_active = true;
  writes = [];
}

queue_all_example :
    let t = queue_all (orange ∷ orange ∷ orange ∷ []) moving in
    (given t ≡ given moving ++ orange ∷ orange ∷ orange ∷ []) × (length t.output_queue ≡ min 2 4)
queue_all_example = queue_all_lem (orange ∷ orange ∷ orange ∷ []) moving refl (omega arith)

switch_off_example :
    ((switch_off moving).target_values ≡ replicate 1 black)
    × ((switch_off moving).output_queue ≡ replicate 1 (replicate 1 black))
switch_off_example = switch_off_lem moving

update_leds_example :
    Gives
      (λ t. Channels Nearer (black ∷ []) orange t.previous_values × (t.previous_time ≡ pos 1040))
      (update_leds at_once (pos 1040) moving)
unfolding delta_time to_int32 ◌-ℤ◌
update_leds_example =
    update_leds_lem at_once (pos 1040) moving ((omega arith, omega arith, omega arith), tt)
      ((omega arith, omega arith, omega arith), tt) refl
      (passes refl (omega arith) (omega arith) (omega arith))
