-- ===== src/Effects/Runs.antt =====
-- Valid states of libsrc/effectengine/EffectEngine.cpp with its core: requests and the start of an
-- effect lead from one to another.
use Prim.Native.String.{String}
use text.Mathlib.Text.{◌==◌ as str_eq}
use hyperion_ng_beta.Prelude.{
  ℕ, ℤ, if◌then◌else◌, [], ◌≡◌, refl, Gives, Gives-bind, Bool-cases, Option-cases, inl, inr,
}
use hyperion_ng_beta.Adjust.Doubles.{Doubles}
use hyperion_ng_beta.Leds.Led.{Fractions}
use hyperion_ng_beta.Core.{Hyperion}
use hyperion_ng_beta.Core.Sources
use hyperion_ng_beta.Core.Operations.{with_input}
use hyperion_ng_beta.Core.Requests.{Request, step, step-IsValid}
use hyperion_ng_beta.Effects.{
  Args, System, find_definition, is_empty, with_calls, request, run_effect_script, run_effect,
}
use hyperion_ng_beta.Effects.Active.{AllApart, IsNew, deliver-AllApart, start-AllApart}

module _ (d : Doubles) (f : Fractions) {J : Type 0} where
  -- A valid core, all calls of the engine carried out, and effects that are apart.
  pub record IsValid (n : ℕ) (s : System d f J) : Type 0 where
    pub core : Sources.IsValid d f n s.hyperion
    pub delivered : s.hyperion.effect_signals ≡ []
    pub apart : AllApart s.active_effects

  pub with_calls-IsValid :
      (n : ℕ) (h : Hyperion d f) (s : System d f J)
      → Sources.IsValid d f n h
      → IsValid n s
      → IsValid n (with_calls d f h s)
  unfolding with_calls
  with_calls-IsValid n h s v w = record {
    core =
        with_input d f n h.muxer h.source_auto_select_enabled h.current_source_priority
          h.smoothing_enabled [] h v.muxer v;
    delivered = refl;
    apart = deliver-AllApart h.effect_signals s.active_effects w.apart;
  }

  pub request-IsValid :
      (n : ℕ) (r : Request n) (s : System d f J) → IsValid n s → Gives (IsValid n) (request d f r s)
  unfolding request
  request-IsValid n r s w =
      Gives-bind (Sources.IsValid d f n) (IsValid n) (step d f s.hyperion r) _
        (step-IsValid d f n s.hyperion r w.core) (λ h v. (_, refl, with_calls-IsValid n h s v w))

  run_effect_script-IsValid :
      (n address : ℕ) (script name : String) (args : Args J) (p t : ℤ) (s : System d f J)
      → IsNew address s.active_effects
      → IsValid n s
      → IsValid n (run_effect_script d f address script name args p t s).0
  unfolding run_effect_script
  run_effect_script-IsValid n address script name args p t s new w = record {
    core = w.core;
    delivered = w.delivered;
    apart = start-AllApart s.active_effects _ new refl w.apart;
  }

  pub run_effect-IsValid :
      (n address : ℕ) (name : String) (args : Args J) (p t : ℤ) (script : String) (s : System d f J)
      → IsNew address s.active_effects
      → IsValid n s
      → IsValid n (run_effect d f address name args p t script s).0
  unfolding run_effect
  run_effect-IsValid n address name args p t script s new w = elim (Bool-cases (str_eq script "")) [
    | inr given ↦ rw given (run_effect_script-IsValid n address script name args p t s new w)
    | inl empty ↦ elim (Option-cases (find_definition name s.available_effects)) [
      | inl missing ↦ rw (empty, missing) w
      | inr (e, found) ↦
          rw (empty, found)
            (run_effect_script-IsValid n address e.script name
              (if is_empty args then e.args else args) p t s new w)
    ]
  ]
