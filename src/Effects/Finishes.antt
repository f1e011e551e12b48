-- ===== src/Effects/Finishes.antt =====
-- `effectFinished` of libsrc/effectengine/EffectEngine.cpp, with the clearing of the channel in the core.
use Prim.Native.String.{String}
use text.Mathlib.Text.{◌==◌ as str_eq}
use hyperion_ng_beta.Prelude.{
  ℕ, ℤ, true, false, List, [], ◌∷◌, ◌++◌, none, some, ◌≡◌, ◌≢◌, refl, sym, ◌∙◌, ap, subst, Gives,
  Gives-bind, OnSome-eq, Bool-cases, inl, inr, ltb_ℤ,
}
use hyperion_ng_beta.Adjust.Doubles.{Doubles}
use hyperion_ng_beta.Leds.Led.{Fractions}
use hyperion_ng_beta.Muxer.{lowest_priority, get_input_info}
use hyperion_ng_beta.Core.{Hyperion, clear, channel_cleared as to_channel}
use hyperion_ng_beta.Core.Operations.{clear-IsValid}
use hyperion_ng_beta.Core.Clear.{clear-Without}
use hyperion_ng_beta.Core.Signals.{clear-effect_signals}
use hyperion_ng_beta.Effects.{
  Effect, System, registered, unregister_priority, find_effect, erase, deliver, with_calls,
  clear_finished, effect_finished,
}
use hyperion_ng_beta.Effects.Active.{erase-AllApart, erase-channel_cleared, find_effect-erase}
use hyperion_ng_beta.Effects.Runs.{IsValid, with_calls-IsValid}

-- After unregistering a name it is not registered.
registered-unregister_priority :
    (name : String) (m : List (String × ℤ)) → registered name (unregister_priority name m) ≡ none
unfolding registered unregister_priority
registered-unregister_priority name [] = refl
registered-unregister_priority name ((n, p) ∷ m) = elim (Bool-cases (str_eq n name)) [
  | inl same ↦ rw same (registered-unregister_priority name m)
  | inr other ↦ rw (other, other) (registered-unregister_priority name m)
]

module _ (d : Doubles) (f : Fractions) {J : Type 0} where
  -- What clearing the channel of an effect that ended leaves.
  record Cleared (n : ℕ) (e : Effect J) (s t : System d f J) : Type 0 where
    valid : IsValid d f n t
    others : erase e.address t.active_effects ≡ erase e.address s.active_effects
    gone :
        e.abort_requested ≡ false
        → ltb_ℤ e.priority lowest_priority ≡ true
        → get_input_info t.hyperion.muxer e.priority ≡ none

  clear_finished-stopped :
      (now later : ℤ) (e : Effect J) (s : System d f J)
      → e.abort_requested ≡ true
      → clear_finished d f now later e s ≡ some s
  unfolding clear_finished
  clear_finished-stopped now later e s stopped = rw stopped refl

  clear_finished-running :
      (now later : ℤ) (e : Effect J) (s : System d f J) (h : Hyperion d f)
      → e.abort_requested ≡ false
      → clear d f now later e.priority s.hyperion ≡ some h
      → clear_finished d f now later e s ≡ some (with_calls d f h s)
  unfolding clear_finished
  clear_finished-running now later e s h on given = rw (on, given) refl

  clear_finished-Cleared :
      (n : ℕ) (now later : ℤ) (e : Effect J) (s : System d f J)
      → find_effect e.address s.active_effects ≡ some e
      → IsValid d f n s
      → Gives (Cleared n e s) (clear_finished d f now later e s)
  unfolding with_calls deliver
  clear_finished-Cleared n now later e s found w = elim (Bool-cases e.abort_requested) [
    | inl stopped ↦ (
      s,
      clear_finished-stopped now later e s stopped,
      record { valid = w; others = refl; gone = λ on. absurd cc },
    )
    | inr on ↦
        let (h, given, v) = clear-IsValid d f n now later e.priority s.hyperion w.core in
        let signals =
          OnSome-eq
            (λ (t : Hyperion d f).
              t.effect_signals ≡ s.hyperion.effect_signals ++ to_channel e.priority ∷ [])
            (clear d f now later e.priority s.hyperion)
            (clear-effect_signals d f now later e.priority s.hyperion) given in
        let calls : h.effect_signals ≡ to_channel e.priority ∷ [] =
          signals ∙ ap (λ l. l ++ to_channel e.priority ∷ []) w.delivered in
        (
          with_calls d f h s,
          clear_finished-running now later e s h on given,
          record {
            valid = with_calls-IsValid d f n h s v w;
            others = rw calls (erase-channel_cleared s.active_effects e found on w.apart);
            gone = λ _ low.
                let (h', given', without) =
                  clear-Without d f n now later e.priority s.hyperion low w.core in
                let same : some h' ≡ some h = sym given' ∙ given in
                let same' : h' ≡ h = cc in
                subst (λ (x : Hyperion d f). get_input_info x.muxer e.priority ≡ none) same'
                  without.1;
          },
        )
  ]

  -- The second half of `effectFinished`.
  abbrev ended : Effect J → System d f J → System d f J
  ended e t = record t {
    active_effects = erase e.address t.active_effects;
    priority_register = unregister_priority e.name t.priority_register;
  }

  ended-IsValid :
      (n : ℕ) (e : Effect J) (s t : System d f J) → Cleared n e s t → IsValid d f n (ended e t)
  ended-IsValid n e s t c = record {
    core = c.valid.core;
    delivered = c.valid.delivered;
    apart = erase-AllApart e.address t.active_effects c.valid.apart;
  }

  -- The end of an active effect, in a valid state, throws no exception and leaves a valid state.
  pub finish-IsValid :
      (n : ℕ) (now later : ℤ) (e : Effect J) (s : System d f J)
      → find_effect e.address s.active_effects ≡ some e
      → IsValid d f n s
      → Gives (IsValid d f n) (effect_finished d f now later e s)
  unfolding effect_finished
  finish-IsValid n now later e s found w =
      Gives-bind (Cleared n e s) (IsValid d f n) _ _
        (clear_finished-Cleared n now later e s found w)
        (λ t c. (ended e t, refl, ended-IsValid n e s t c))

  -- When an active effect that is not told to stop ends by itself, below the lowest channel and in
  -- a valid state, no exception is thrown, its channel is gone from the muxer, and it is taken out
  -- of the active effects, while none of the others is told to stop; the state stays valid.
  pub effect_finished-running :
      (n : ℕ) (now later : ℤ) (e : Effect J) (s : System d f J)
      → find_effect e.address s.active_effects ≡ some e
      → e.abort_requested ≡ false
      → ltb_ℤ e.priority lowest_priority ≡ true
      → IsValid d f n s
      → (t : System d f J) × (effect_finished d f now later e s ≡ some t)
        × (get_input_info t.hyperion.muxer e.priority ≡ none)
        × (t.active_effects ≡ erase e.address s.active_effects)
        × IsValid d f n t
  unfolding effect_finished
  effect_finished-running n now later e s found on low w =
      let (t, given, c) = clear_finished-Cleared n now later e s found w in
      rw given (ended e t, refl, c.gone on low, c.others, ended-IsValid n e s t c)

  -- In a valid state with two active effects of one name, as after a restart, the end of one
  -- leaves the other active without an entry of that name in the register of priorities.
  pub effect_finished-unregistered :
      (n : ℕ) (now later : ℤ) (e o : Effect J) (s : System d f J)
      → find_effect e.address s.active_effects ≡ some e
      → find_effect o.address s.active_effects ≡ some o
      → o.address ≢ e.address
      → o.name ≡ e.name
      → IsValid d f n s
      → (t : System d f J) × (effect_finished d f now later e s ≡ some t)
        × (find_effect o.address t.active_effects ≡ some o)
        × (registered o.name t.priority_register ≡ none)
  unfolding effect_finished
  effect_finished-unregistered n now later e o s found found' other same w =
      let (t, given, c) = clear_finished-Cleared n now later e s found w in
      rw given (
        ended e t,
        refl,
        rw c.others (find_effect-erase s.active_effects e.address o found' other),
        rw same (registered-unregister_priority e.name t.priority_register),
      )
