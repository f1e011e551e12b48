-- ===== src/Core/Signals.antt =====
-- The calls of the effect engine that `clear` of libsrc/hyperion/Hyperion.cpp makes.
use hyperion_ng_beta.Prelude.{
  Option, ℕ, Bool, true, ℤ, ◌≡◌, refl, sym, ap, not, ◌&&◌, Bool-cases, inl, inr, ltb_ℤ, eqb_ℤ, List,
  [], ◌∷◌, ◌++◌, OnSome, OnSome-bind, OnSome-any, OnSome-if,
}
use hyperion_ng_beta.Components.{Components, component_eq}
use hyperion_ng_beta.Muxer
use hyperion_ng_beta.Muxer.{
  InputInfo, lowest_priority, clear_input, set_current_time, get_input_info, has_priority,
}
use hyperion_ng_beta.Forwarder.{ForwarderConfig, create_message_forwarder}
use hyperion_ng_beta.Wire.{color_orders, insert_clones, reorder_all}
use hyperion_ng_beta.Adjust.Doubles.{Doubles}
use hyperion_ng_beta.Adjust.Multi.{MultiColorAdjustment, verify_adjustments}
use hyperion_ng_beta.Leds.Led.{Fractions, Led}
use hyperion_ng_beta.Core
use hyperion_ng_beta.Core.{
  Hyperion, EffectSignal, channel_cleared, select_backlight, adjusted, output, write_leds, update,
  set_current_source_priority, set_source_auto_select_enabled, reselect_source, update_if,
  clear_active, clear, signal, construct, initialize,
}

module _ (d : Doubles) (f : Fractions) where
  -- No call of the engine is added to those of `s`.
  abbrev Silent : Hyperion d f → Hyperion d f → Type 0
  Silent s t = t.effect_signals ≡ s.effect_signals

  adjusted-Silent : (p : ℤ) (i : InputInfo) (s : Hyperion d f) → Silent s (adjusted d f p i s).0
  unfolding adjusted select_backlight
  adjusted-Silent p i s = elim (Bool-cases (ltb_ℤ p lowest_priority)) [
    | inr off ↦ rw off refl
    | inl on ↦ elim (Bool-cases (component_eq i.component_id s.prev_comp_id)) [
      | inl same ↦ rw (on, same) refl
      | inr new ↦ rw (on, new) refl
    ]
  ]

  update-Silent : (now later : ℤ) (s : Hyperion d f) → OnSome (Silent s) (update d f now later s)
  unfolding update output write_leds
  update-Silent now later s =
      let t : Hyperion d f = record s { muxer = set_current_time now s.muxer } in
      OnSome-bind (λ _. Unit {0}) (Silent s)
        (get_input_info t.muxer (Core.get_current_priority d f t)) _ (OnSome-any _)
        (λ i _.
          let r = adjusted d f (Core.get_current_priority d f t) i t in
          OnSome-bind (λ _. Unit {0}) (Silent s)
            (color_orders f r.0.led_string r.0.led_string_clone r.0.led_string_color_order) _
            (OnSome-any _)
            (λ orders _.
              OnSome-bind (λ _. Unit {0}) (Silent s) (insert_clones f r.0.led_string_clone r.1) _
                (OnSome-any _)
                (λ cloned _.
                  OnSome-bind (λ _. Unit {0}) (Silent s) (reorder_all orders cloned) _
                    (OnSome-any _)
                    (λ ordered _. adjusted-Silent (Core.get_current_priority d f t) i t))))

  reselect-Silent :
      (now later p : ℤ) (s : Hyperion d f) → OnSome (Silent s) (reselect_source d f now later p s)
  unfolding reselect_source set_source_auto_select_enabled
  reselect-Silent now later p s =
      OnSome-if (Silent s) (not s.source_auto_select_enabled && eqb_ℤ s.current_source_priority p) _
        _ (update-Silent now later (record s { source_auto_select_enabled = true })) refl

  clear_active-Silent :
      (now later p : ℤ) (s : Hyperion d f) → OnSome (Silent s) (clear_active d f now later p s)
  unfolding clear_active update_if
  clear_active-Silent now later p s =
      OnSome-bind (λ _. Unit {0}) (Silent s) (clear_input p s.muxer) _ (OnSome-any _)
        (λ m _.
          OnSome-bind (Silent s) (Silent s)
            (reselect_source d f now later p (record s { muxer = m })) _
            (reselect-Silent now later p (record s { muxer = m }))
            (λ t e.
              OnSome-if (Silent s) (ltb_ℤ p (Muxer.get_current_priority t.muxer)) _ _
                (rw (sym e) (update-Silent now later t)) e))

  -- The one call is that the channel was cleared.
  pub clear-effect_signals :
      (now later p : ℤ) (s : Hyperion d f)
      → OnSome
          (λ (t : Hyperion d f). t.effect_signals ≡ s.effect_signals ++ channel_cleared p ∷ [])
          (clear d f now later p s)
  unfolding clear signal
  clear-effect_signals now later p s =
      OnSome-bind (Silent s)
        (λ (t : Hyperion d f). t.effect_signals ≡ s.effect_signals ++ channel_cleared p ∷ []) _ _
        (OnSome-if (Silent s) (has_priority s.muxer p) _ _ (clear_active-Silent now later p s) refl)
        (λ t e. ap (λ l. l ++ channel_cleared p ∷ []) e)

  pub construct-effect_signals :
      (to_ushort : List ℕ → Option ℕ) (config : ForwarderConfig) (now later : ℤ)
      (leds clones : List (Led f)) (a : MultiColorAdjustment d) (hw : Option ℤ) (b : Bool)
      (c : Components) (p : ℤ)
      → OnSome
          (λ (t : Hyperion d f). t.effect_signals ≡ [])
          (construct d f to_ushort config now later leds clones a hw b c p)
  unfolding construct initialize
  construct-effect_signals to_ushort config now later leds clones a hw b c p =
      OnSome-bind (λ _. Unit {0}) (λ (t : Hyperion d f). t.effect_signals ≡ [])
        (create_message_forwarder to_ushort config) _ (OnSome-any _)
        (λ m _.
          OnSome-if (λ (t : Hyperion d f). t.effect_signals ≡ []) (verify_adjustments d a).1 _ _
            (update-Silent now later _) tt)
