-- ===== src/Effects/Tests.antt =====
-- The effect engine (libsrc/effectengine/EffectEngine.cpp) with an effect that is started again on its
-- channel while its first run still ends.
use hyperion_ng_beta.Prelude.{
  length, ◌≤◌, ℕ, pos, negsuc, Bool, true, false, ltb_ℤ, eqb_ℤ, [], ◌∷◌, some, none, ◌≡◌, refl,
  arith, Gives,
}
use hyperion_ng_beta.Components.{comp_invalid}
use hyperion_ng_beta.QMap.{is_some}
use hyperion_ng_beta.Muxer.{get_input_info}
use hyperion_ng_beta.Adjust.Doubles.{whole}
use hyperion_ng_beta.Adjust.Multi.{verify_adjustments, verify_leds}
use hyperion_ng_beta.Adjust.Tests.{two_adjusted}
use hyperion_ng_beta.Leds.Led.{percent}
use hyperion_ng_beta.Forwarder.Tests.{read_port, forwards, forwards-AllAddresses}
use hyperion_ng_beta.Core
use hyperion_ng_beta.Core.{construct}
use hyperion_ng_beta.Core.Sources
use hyperion_ng_beta.Core.Tests.{leds, clones}
use hyperion_ng_beta.Core.Clear.Tests.{selected, selected-IsValid}
use hyperion_ng_beta.Core.Requests.{construct-IsValid}
use hyperion_ng_beta.Effects.{
  Effect, System, registered, find_effect, erase, init, run_effect, run_effect_script,
  effect_finished, get_active_effects, find_definition, channel_cleared, abort_on, is_empty,
}
use hyperion_ng_beta.Effects.Runs.{IsValid}
use hyperion_ng_beta.Effects.Reaches.{starts, runs, length-running_on-Reachable}
use hyperion_ng_beta.Effects.Starts.{running_on, running_on-run_effect_script}
use hyperion_ng_beta.Effects.Finishes.{effect_finished-running, effect_finished-unregistered}

abbrev rainbow : ℕ → Bool → Effect ℕ
rainbow address stopped = record {
  address = address;
  priority = pos 50;
  timeout = negsuc 0;
  script = "rainbow.py";
  name = "Rainbow";
  args = ("speed", 3) ∷ [];
  abort_requested = stopped;
}

-- The first run is told to stop, the second one runs.
abbrev restarted : System whole percent ℕ
restarted = record {
  hyperion = selected;
  priority_register = ("Off", pos 255) ∷ ("Rainbow", pos 50) ∷ [];
  available_effects =
      record {
        file = "rainbow.json";
        name = "Rainbow";
        script = "rainbow.py";
        args = ("speed", 3) ∷ [];
      }
      ∷ [];
  active_effects = rainbow 1 true ∷ rainbow 2 false ∷ [];
}

restarted-IsValid : IsValid whole percent 2 restarted
restarted-IsValid = record {
  core = selected-IsValid;
  delivered = refl;
  apart =
      ((record { objects = λ e. ground (arith, e); channels = λ off. absurd cc }, tt), (tt, tt));
}

effect_finished-running_example :
    (t : System whole percent ℕ) × (effect_finished whole percent
        (pos 7)
        (pos 8)
        (rainbow 2 false)
        restarted
      ≡ some t)
    × (get_input_info t.hyperion.muxer (pos 50) ≡ none)
    × (t.active_effects ≡ erase 2 (rainbow 1 true ∷ rainbow 2 false ∷ []))
    × IsValid whole percent 2 t
unfolding ltb_ℤ find_effect
effect_finished-running_example =
    effect_finished-running whole percent 2 (pos 7) (pos 8) (rainbow 2 false) restarted refl refl
      refl restarted-IsValid

effect_finished-unregistered_example :
    (t : System whole percent ℕ) × (effect_finished whole percent
        (pos 7)
        (pos 8)
        (rainbow 1 true)
        restarted
      ≡ some t)
    × (find_effect 2 t.active_effects ≡ some (rainbow 2 false))
    × (registered "Rainbow" t.priority_register ≡ none)
unfolding find_effect
effect_finished-unregistered_example =
    effect_finished-unregistered whole percent 2 (pos 7) (pos 8) (rainbow 1 true) (rainbow 2 false)
      restarted refl refl (λ e. ground (arith, e)) refl restarted-IsValid

running_on-run_effect_script_example :
    running_on
      (pos 50)
      (run_effect_script whole percent 3 "mood.py" "Mood" []
        (pos 50)
        (negsuc 0)
        restarted).0.active_effects
    ≡ record {
      address = 3;
      priority = pos 50;
      timeout = negsuc 0;
      script = "mood.py";
      name = "Mood";
      args = [];
      abort_requested = false;
    }
      ∷ []
unfolding eqb_ℤ
running_on-run_effect_script_example =
    running_on-run_effect_script whole percent 3 "mood.py" "Mood" [] (pos 50) (negsuc 0) (pos 50)
      restarted

abbrev constructed : Gives (Sources.IsValid whole percent 2) (
    construct whole percent read_port forwards
      (pos 0)
      (pos 1)
      leds
      clones
      two_adjusted
      (some (pos 4))
      false
      comp_invalid
      (pos 0))
unfolding verify_adjustments verify_leds
constructed =
    construct-IsValid whole percent read_port forwards (pos 0) (pos 1) leds clones two_adjusted
      (some (pos 4)) false comp_invalid (pos 0) forwards-AllAddresses
      (omega arith, (0, refl, omega arith), tt) refl

abbrev started : System whole percent ℕ
started = init whole percent constructed.0 restarted.available_effects

abbrev running : System whole percent ℕ
running = (run_effect whole percent 1 "Rainbow" [] (pos 50) (negsuc 0) "" started).0

length-running_on-Reachable_example :
    (t : System whole percent ℕ) × (some running ≡ some t)
    × (length (running_on (pos 50) t.active_effects) ≤ 1)
    × (is_some
          (get_input_info t.hyperion.muxer (Core.get_current_priority whole percent t.hyperion))
        ≡ true)
unfolding verify_adjustments verify_leds init
length-running_on-Reachable_example =
    length-running_on-Reachable whole percent read_port forwards (pos 0) (pos 1) leds clones
      two_adjusted (some (pos 4)) false comp_invalid (pos 0) restarted.available_effects
      constructed.0 (pos 50) (some running) (omega arith, (0, refl, omega arith), tt) refl
      constructed.1 (runs starts 1 tt "Rainbow" [] (pos 50) (negsuc 0) "")

-- An unknown effect is not started, a known one with its own arguments.
runs_known_effects :
    ((run_effect whole percent 3 "Mood" [] (pos 40) (negsuc 0) "" restarted).1 ≡ negsuc 0)
    × (get_active_effects
          (run_effect whole percent 3 "Rainbow" [] (pos 40) (pos 9) "" restarted).0.active_effects
        ≡ get_active_effects (
            rainbow 1 true
            ∷ rainbow 2 false
            ∷ record (rainbow 3 false) { priority = pos 40; timeout = pos 9 }
            ∷ []))
unfolding run_effect run_effect_script get_active_effects eqb_ℤ find_definition channel_cleared
    abort_on is_empty
runs_known_effects = (refl, refl)
