-- ===== src/Muxer/Runs.antt =====
-- The priority muxer (PriorityMuxer.cpp) over any sequence of calls.
use hyperion_ng_beta.Prelude.{ℕ, ℤ, List, [], ◌∷◌, Option, none, some, ◌≡◌, refl}
use hyperion_ng_beta.Color.{ColorRgb}
use hyperion_ng_beta.Components.{Components}
use hyperion_ng_beta.Muxer.{
  PriorityMuxer, lowest_priority, no_timeout, init, set_input, clear_input, clear_all,
  set_current_time,
}
use hyperion_ng_beta.Muxer.Invariant.{
  IsValid, init-IsValid, set_input-IsValid, clear_input-IsValid, clear_all-IsValid,
}
use hyperion_ng_beta.Muxer.Timeout.{set_current_time-IsValid}

-- The calls that change the muxer. A call of `setInput` on the lowest channel sets no timeout.
pub data Call : Type 0 where
  sets :
      (p : ℤ) → List ColorRgb → (t : ℤ) → Components → (p ≡ lowest_priority → t ≡ no_timeout) → Call
  clears : ℤ → Call
  clears_all : Call
  passes : ℤ → Call

-- One call; `none` where the source reads past the end of a list.
abbrev pub step : PriorityMuxer → Call → Option PriorityMuxer
step s (sets p l t c h) = some (set_input p l t c s)
step s (clears p) = clear_input p s
step s clears_all = some (clear_all s)
step s (passes now) = some (set_current_time now s)

abbrev pub run : Option PriorityMuxer → List Call → Option PriorityMuxer
run none cs = none
run (some s) [] = some s
run (some s) (c ∷ cs) = run (step s c) cs

step-IsValid :
    (s : PriorityMuxer) (c : Call)
    → IsValid s
    → (t : PriorityMuxer) × (step s c ≡ some t) × IsValid t
step-IsValid s (sets p l t c h) v = (_, refl, set_input-IsValid p l t c s h v)
step-IsValid s (clears p) v = clear_input-IsValid p s v
step-IsValid s clears_all v = (_, refl, clear_all-IsValid s v)
step-IsValid s (passes now) v = (_, refl, set_current_time-IsValid now s v)

run-IsValid :
    (s : PriorityMuxer) (cs : List Call)
    → IsValid s
    → (t : PriorityMuxer) × (run (some s) cs ≡ some t) × IsValid t
run-IsValid s [] v = (s, refl, v)
run-IsValid s (c ∷ cs) v =
    let (t, e, w) = step-IsValid s c v in
    let (u, e', w') = run-IsValid t cs w in (u, rw (e, run) e', w')

-- After any calls on a new muxer, as long as none gives the lowest channel a timeout, no call
-- reads past the end of a list, the keys are ascending, each entry is stored under its own
-- priority, the current priority is an active one and no active one is smaller, and the lowest
-- channel is active and has no timeout.
pub run-init-IsValid :
    (led_count : ℕ) (component : Components) (calls : List Call)
    → (s : PriorityMuxer) × (run (some (init led_count component)) calls ≡ some s) × IsValid s
run-init-IsValid n c calls = run-IsValid (init n c) calls (init-IsValid n c)
