-- ===== src/Effects/Reaches.antt =====
-- The states of libsrc/effectengine/EffectEngine.cpp and its core: requests are served, effects start
-- and effects end, in any order.
use Prim.Native.String.{String}
use hyperion_ng_beta.Prelude.{
  ℕ, ℤ, Bool, true, List, [], Option, some, ◌≡◌, refl, Gives, Gives-some, OnSome-eq, length, ◌≤◌,
}
use hyperion_ng_beta.Components.{Components}
use hyperion_ng_beta.QMap.{is_some}
use hyperion_ng_beta.Muxer.{get_input_info}
use hyperion_ng_beta.Adjust.Doubles.{Doubles}
use hyperion_ng_beta.Adjust.Multi.{MultiColorAdjustment, verify_adjustments}
use hyperion_ng_beta.Leds.Led.{Fractions, Led}
use hyperion_ng_beta.Forwarder.{ForwarderConfig}
use hyperion_ng_beta.Wire.Buffer.{IsPlaced}
use hyperion_ng_beta.Core
use hyperion_ng_beta.Core.{Hyperion, construct}
use hyperion_ng_beta.Core.Sources.{current-active}
use hyperion_ng_beta.Core.Signals.{construct-effect_signals}
use hyperion_ng_beta.Core.Requests.{Request, constructed-IsValid}
use hyperion_ng_beta.Effects.{
  Args, Effect, EffectDefinition, System, find_effect, init, request, run_effect, effect_finished,
}
use hyperion_ng_beta.Effects.Active.{IsNew}
use hyperion_ng_beta.Effects.Starts.{running_on, length-running_on}
use hyperion_ng_beta.Effects.Runs.{IsValid, request-IsValid, run_effect-IsValid}
use hyperion_ng_beta.Effects.Finishes.{finish-IsValid}

module _ (d : Doubles) (f : Fractions) {J : Type 0} where
  -- The states that requests, starting effects and ending effects lead to. A new effect gets an
  -- address that no active one has, and an effect ends while it is active.
  pub data Reachable (n : ℕ) (start : System d f J) : Option (System d f J) → Type 0 where
    starts : Reachable n start (some start)
    requests :
        {s : System d f J}
        → Reachable n start (some s)
        → (r : Request n) → Reachable n start (request d f r s)
    runs :
        {s : System d f J}
        → Reachable n start (some s)
        → (address : ℕ) → IsNew address s.active_effects
        → (name : String) → (args : Args J) → (priority timeout : ℤ) → (python_script : String)
        → Reachable n start
            (some (run_effect d f address name args priority timeout python_script s).0)
    finishes :
        {s : System d f J}
        → Reachable n start (some s)
        → (now later : ℤ) → (e : Effect J) → find_effect e.address s.active_effects ≡ some e
        → Reachable n start (effect_finished d f now later e s)

  Reachable-IsValid :
      (n : ℕ) (start : System d f J) {o : Option (System d f J)}
      → Reachable n start o
      → IsValid d f n start
      → Gives (IsValid d f n) o
  Reachable-IsValid n start starts w = (start, refl, w)
  Reachable-IsValid n start (requests {s} before r) w =
      request-IsValid d f n r s (Gives-some (IsValid d f n) (Reachable-IsValid n start before w))
  Reachable-IsValid n start (runs {s} before address new name args p t script) w = (
    _,
    refl,
    run_effect-IsValid d f n address name args p t script s new
        (Gives-some (IsValid d f n) (Reachable-IsValid n start before w)),
  )
  Reachable-IsValid n start (finishes {s} before now later e found) w =
      finish-IsValid d f n now later e s found
        (Gives-some (IsValid d f n) (Reachable-IsValid n start before w))

  -- For leds whose clones can be inserted, and adjustments that verify: from the constructed core
  -- without effects, whatever requests, starts of effects and ends of active effects follow one
  -- another, no exception is thrown, at most one effect that is not told to stop is active on each
  -- channel, and the current priority of the core is active. A new effect object has an address
  -- that no active one has; colors come one for each led, and no request gives the lowest channel
  -- a timeout.
  pub length-running_on-Reachable :
      (to_ushort : List ℕ → Option ℕ) (config : ForwarderConfig) (now later : ℤ)
      (leds clones : List (Led f)) (a : MultiColorAdjustment d) (hw : Option ℤ) (b : Bool)
      (c : Components) (p : ℤ) (defs : List (EffectDefinition J)) (h : Hyperion d f) (q : ℤ)
      (o : Option (System d f J))
      → IsPlaced f (length leds) clones
      → (verify_adjustments d a).1 ≡ true
      → construct d f to_ushort config now later leds clones a hw b c p ≡ some h
      → Reachable (length leds) (init d f h defs) o
      → (t : System d f J) × (o ≡ some t)
        × (length (running_on q t.active_effects) ≤ 1)
        × (is_some (get_input_info t.hyperion.muxer (Core.get_current_priority d f t.hyperion))
            ≡ true)
  unfolding init
  length-running_on-Reachable to_ushort config now later leds clones a hw b c p defs h q o placed ok
        made reached =
      let v =
        constructed-IsValid d f to_ushort config now later leds clones a hw b c p h placed ok
          made in
      let silent =
        OnSome-eq (λ (t : Hyperion d f). t.effect_signals ≡ [])
          (construct d f to_ushort config now later leds clones a hw b c p)
          (construct-effect_signals d f to_ushort config now later leds clones a hw b c p) made in
      let (t, e, w) =
        Reachable-IsValid (length leds) (init d f h defs) reached
          (record { core = v; delivered = silent; apart = tt }) in
      let (i, current) = current-active d f t.hyperion w.core.muxer.valid in
      (t, e, length-running_on q t.active_effects w.apart, rw current refl)
