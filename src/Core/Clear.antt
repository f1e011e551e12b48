-- ===== src/Core/Clear.antt =====
-- `clear` of libsrc/hyperion/Hyperion.cpp takes the channel away.
use hyperion_ng_beta.Prelude.{
  ℕ, ℤ, pos, ◌≡◌, refl, sym, ap, subst, ◌∙◌, arith, Bool, true, false, not, ◌&&◌, if◌then◌else◌,
  ltb_ℤ, eqb_ℤ, eqb_ℤ_refl, List, [], ◌∷◌, Option, none, some, ◌>>=◌, Gives, Gives-bind, Gives-if,
  OnSome, OnSome-bind, OnSome-any, OnSome-eq, Bool-cases, inl, inr,
}
use hyperion_ng_beta.Color.{ColorRgb}
use hyperion_ng_beta.Components.{component_eq}
use hyperion_ng_beta.QMap.{find, remove, is_some}
use hyperion_ng_beta.QMap.Laws.{find-remove}
use hyperion_ng_beta.Muxer
use hyperion_ng_beta.Muxer.{
  PriorityMuxer, InputInfo, lowest_priority, clear_input, set_current_time, get_input_info,
  has_priority,
}
use hyperion_ng_beta.Muxer.Inputs.{clear_input_inputs, has_priority_iff}
use hyperion_ng_beta.Muxer.Timeout.{find-sweep}
use hyperion_ng_beta.Wire.{color_orders, insert_clones, reorder_all}
use hyperion_ng_beta.Adjust.Doubles.{Doubles}
use hyperion_ng_beta.Leds.Led.{Fractions}
use hyperion_ng_beta.Core
use hyperion_ng_beta.Core.{
  Hyperion, EffectSignal, channel_cleared, select_backlight, adjusted, output, write_leds, update,
  set_source_auto_select_enabled, reselect_source, update_if, clear_active, clear, signal,
}
use hyperion_ng_beta.Core.Channels.{HasLeds, clear_input-HasLeds}
use hyperion_ng_beta.Core.Sources.{IsValid, update-IsValid}
use hyperion_ng_beta.Core.Operations.{with_input, with_muxer, signal-IsValid}
pub mod Tests

module _ (d : Doubles) (f : Fractions) where
  adjusted_muxer :
      (p : ℤ) (i : InputInfo) (s : Hyperion d f) → (adjusted d f p i s).0.muxer ≡ s.muxer
  unfolding adjusted select_backlight
  adjusted_muxer p i s = elim (Bool-cases (ltb_ℤ p lowest_priority)) [
    | inr off ↦ rw off refl
    | inl on ↦ elim (Bool-cases (component_eq i.component_id s.prev_comp_id)) [
      | inl same ↦ rw (on, same) refl
      | inr new ↦ rw (on, new) refl
    ]
  ]

  -- An update does to the muxer what `setCurrentTime` does.
  update_muxer :
      (now later : ℤ) (s : Hyperion d f)
      → OnSome (λ t. t.muxer ≡ set_current_time now s.muxer) (update d f now later s)
  unfolding update output write_leds
  update_muxer now later s =
      let Q = λ (t : Hyperion d f). t.muxer ≡ set_current_time now s.muxer in
      let t : Hyperion d f = record s { muxer = set_current_time now s.muxer } in
      OnSome-bind (λ _. Unit {0}) Q (get_input_info t.muxer (Core.get_current_priority d f t)) _
        (OnSome-any _)
        (λ i _.
          let r = adjusted d f (Core.get_current_priority d f t) i t in
          OnSome-bind (λ _. Unit {0}) Q
            (color_orders f r.0.led_string r.0.led_string_clone r.0.led_string_color_order) _
            (OnSome-any _)
            (λ orders _.
              OnSome-bind (λ _. Unit {0}) Q (insert_clones f r.0.led_string_clone r.1) _
                (OnSome-any _)
                (λ cloned _.
                  OnSome-bind (λ _. Unit {0}) Q (reorder_all orders cloned) _ (OnSome-any _)
                    (λ ordered _. adjusted_muxer (Core.get_current_priority d f t) i t))))

  -- Valid, and without the channel `p`.
  abbrev pub Without : ℕ → ℤ → Hyperion d f → Type 0
  Without n p s = IsValid d f n s × (get_input_info s.muxer p ≡ none)

  update-Without :
      (n : ℕ) (p now later : ℤ) (s : Hyperion d f)
      → Without n p s
      → Gives (Without n p) (update d f now later s)
  unfolding set_current_time get_input_info
  update-Without n p now later s (v, gone) =
      let (t, e, w) = update-IsValid d f n now later s v in
      let m =
        OnSome-eq (λ (t : Hyperion d f). t.muxer ≡ set_current_time now s.muxer)
          (update d f now later s) (update_muxer now later s) e in
      let swept = find-sweep p now lowest_priority s.muxer.active_inputs v.muxer.valid.ascending in
      (t, e, (w, rw m (swept ∙ rw gone refl)))

  clear_input-gone :
      (p : ℤ) (n : ℕ) (m t : PriorityMuxer)
      → ltb_ℤ p lowest_priority ≡ true
      → HasLeds n m
      → clear_input p m ≡ some t
      → get_input_info t p ≡ none
  unfolding get_input_info
  clear_input-gone p n m t low v e =
      let inputs = clear_input_inputs p m t e in
      rw (inputs, low) (find-remove p p m.active_inputs v.valid.ascending ∙ rw (eqb_ℤ_refl p) refl)

  reselect-Without :
      (n : ℕ) (p now later : ℤ) (s : Hyperion d f)
      → Without n p s
      → Gives (Without n p) (reselect_source d f now later p s)
  unfolding reselect_source set_source_auto_select_enabled
  reselect-Without n p now later s (v, gone) =
      Gives-if (Without n p) (not s.source_auto_select_enabled && eqb_ℤ s.current_source_priority p)
        _ _
        (λ _. update-Without n p now later _ (
          with_input d f n s.muxer true s.current_source_priority s.smoothing_enabled
              s.effect_signals s v.muxer v,
          gone,
        ))
        (λ _. (s, refl, (v, gone)))

  clear_active-Without :
      (n : ℕ) (now later p : ℤ) (s : Hyperion d f)
      → ltb_ℤ p lowest_priority ≡ true
      → IsValid d f n s
      → Gives (Without n p) (clear_active d f now later p s)
  unfolding clear_active update_if
  clear_active-Without n now later p s low v =
      let (m, em, h) = clear_input-HasLeds n p s.muxer v.muxer in
      let gone = clear_input-gone p n s.muxer m low v.muxer em in
      rw em (
        Gives-bind (Without n p) (Without n p)
          (reselect_source d f now later p (record s { muxer = m })) _
          (reselect-Without n p now later _ (with_muxer d f n m s h v, gone))
          (λ t w.
            Gives-if (Without n p) (ltb_ℤ p (Muxer.get_current_priority t.muxer)) _ _
              (λ _. update-Without n p now later t w) (λ _. (_, refl, w))))

  inactive : (o : Option InputInfo) → is_some o ≡ false → o ≡ none
  inactive none e = refl
  inactive (some i) e = absurd (ground (arith, e))

  -- Clearing a channel below the lowest one, in a valid state: no exception is thrown, the state
  -- stays valid, and the channel is no longer there.
  pub clear-Without :
      (n : ℕ) (now later p : ℤ) (s : Hyperion d f)
      → ltb_ℤ p lowest_priority ≡ true
      → IsValid d f n s
      → Gives (Without n p) (clear d f now later p s)
  unfolding clear signal
  clear-Without n now later p s low v =
      Gives-bind (Without n p) (Without n p) _ _
        (Gives-if (Without n p) (has_priority s.muxer p) _ _
          (λ _. clear_active-Without n now later p s low v)
          (λ off. (
            s,
            refl,
            (
              v,
              inactive (get_input_info s.muxer p)
                  (sym (has_priority_iff s.muxer p v.muxer.valid) ∙ off),
            ),
          )))
        (λ t w. (_, refl, (signal-IsValid d f n (channel_cleared p) t w.0, w.1)))
