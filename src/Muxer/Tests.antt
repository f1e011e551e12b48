-- ===== src/Muxer/Tests.antt =====
-- The priority muxer (libsrc/hyperion/PriorityMuxer.cpp) on a small example.
use hyperion_ng_beta.Prelude.{pos, negsuc, List, [], ◌∷◌, some, ◌≡◌, refl, replicate, arith}
use hyperion_ng_beta.Color.{ColorRgb}
use hyperion_ng_beta.Components.{comp_color, comp_grabber, comp_invalid}
use hyperion_ng_beta.Muxer.{PriorityMuxer, init, get_input_info, set_input}
use hyperion_ng_beta.Muxer.Invariant.{IsValid, init-IsValid, set_input-IsValid}
use hyperion_ng_beta.Muxer.Runs.{Call, sets, clears, clears_all, passes, run, run-init-IsValid}
use hyperion_ng_beta.Muxer.Inputs.{effect, step-effect}

abbrev grey : List ColorRgb
grey = replicate 2 (record { red = 9; green = 9; blue = 9 })

-- A grabber with a timeout, a color above it, time that passes, and a channel that is cleared.
abbrev calls : List Call
calls =
    sets (pos 200) grey (pos 500) comp_grabber (λ e. ground arith)
    ∷ sets (pos 10) grey (negsuc 0) comp_color (λ e. ground arith)
    ∷ passes (pos 600)
    ∷ clears (pos 10)
    ∷ clears_all
    ∷ []

run-init_example :
    (s : PriorityMuxer) × (run (some (init 2 comp_invalid)) calls ≡ some s) × IsValid s
run-init_example = run-init-IsValid 2 comp_invalid calls

abbrev with_grabber : PriorityMuxer
with_grabber = set_input (pos 200) grey (pos 500) comp_grabber (init 2 comp_invalid)

with_grabber-IsValid : IsValid with_grabber
with_grabber-IsValid =
    set_input-IsValid (pos 200) grey (pos 500) comp_grabber (init 2 comp_invalid)
      (λ e. ground arith) (init-IsValid 2 comp_invalid)

step-effect_example :
    (t : PriorityMuxer) × (get_input_info t (pos 200)
      ≡ effect with_grabber.lowest_priority_info
          (passes (pos 600))
          (get_input_info with_grabber)
          (pos 200))
step-effect_example =
    (_, step-effect with_grabber _ (passes (pos 600)) (pos 200) with_grabber-IsValid refl)
