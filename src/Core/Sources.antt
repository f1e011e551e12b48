-- ===== src/Core/Sources.antt =====
-- The input sources of libsrc/hyperion/Hyperion.cpp over any sequence of requests.
use Prim.Native.Nat.{max}
use hyperion_ng_beta.Prelude.{
  ℕ, ℤ, ◌+◌, ◌≡◌, refl, sym, arith, Bool, true, false, not, ◌||◌, if◌then◌else◌, ltb_ℤ, List, [],
  ◌∷◌, none, some, length, Gives, ◌⊎◌, inl, inr, All, All-append, Bool-cases, Option-cases, subst,
}
use hyperion_ng_beta.Color.{ColorRgb}
use hyperion_ng_beta.Components.{Components, component_eq}
use hyperion_ng_beta.QMap.Laws.{All-find}
use hyperion_ng_beta.Muxer.{
  InputInfo, lowest_priority, set_current_time, has_priority, get_input_info,
}
use hyperion_ng_beta.Muxer.Invariant
use hyperion_ng_beta.Muxer.Invariant.{
  info, set_input-IsValid, clear_input-IsValid, clear_all-IsValid,
}
use hyperion_ng_beta.Muxer.Inputs.{has_priority_iff, current_priority-least}
use hyperion_ng_beta.Adjust.Doubles.{Doubles}
use hyperion_ng_beta.Adjust.Multi.{MultiColorAdjustment}
use hyperion_ng_beta.Adjust.Leds.{apply_adjustment_lem}
use hyperion_ng_beta.Leds.Led.{Fractions}
use hyperion_ng_beta.Core
use hyperion_ng_beta.Core.{
  Hyperion, Written, smoothed, direct, EffectSignal, channel_cleared, all_channels_cleared,
  select_backlight, adjusted, start_timer, write_leds, output, update, set_current_source_priority,
  set_source_auto_select_enabled, signal, set_colors, set_color, reselect_source, update_if,
  clear_active, clear, clearall, set_smoothing_enabled, pad_black, insert_clones, color_orders,
  reorder_all,
}
use hyperion_ng_beta.Wire.Buffer.{
  IsPlaced, insert_clones-Gives, color_orders-Gives, reorder_all-Gives, length-pad_black,
}
use hyperion_ng_beta.Core.Channels.{IsSized, HasLeds, set_current_time-HasLeds}

abbrev pub colors_of : Written → List ColorRgb
colors_of (smoothed l) = l
colors_of (direct l) = l

module _ (d : Doubles) (f : Fractions) where
  -- The number of colors of a write for `n` leds: one for each led and each clone, and at least one
  -- for each hardware led.
  abbrev pub write_size : ℕ → Hyperion d f → ℕ
  write_size n s = max s.hw_led_count (n + length s.led_string_clone)

  pub record IsValid (n : ℕ) (s : Hyperion d f) : Type 0 where
    pub count : length s.led_string ≡ n
    pub muxer : HasLeds n s.muxer
    pub placed : IsPlaced f n s.led_string_clone
    pub orders :
        (length s.led_string_color_order ≡ 0)
        ⊎ (length s.led_string_color_order ≡ n + length s.led_string_clone)
    pub written : All (λ w. length (colors_of w) ≡ write_size n s) s.writes

  -- The current priority is active, so that `getInputInfo` does not throw.
  pub current-active :
      (s : Hyperion d f)
      → Invariant.IsValid s.muxer
      → (i : InputInfo) × (get_input_info s.muxer (Core.get_current_priority d f s) ≡ some i)
  unfolding Core.get_current_priority
  current-active s v =
      elim (Bool-cases
        (s.source_auto_select_enabled || not (has_priority s.muxer s.current_source_priority))) [
          | inl auto ↦ let (i, e, _) = current_priority-least s.muxer v in (i, rw auto e)
          | inr chosen ↦
              rw chosen
                (selected (Option-cases (get_input_info s.muxer s.current_source_priority)) chosen)
        ]
    where
      selected :
          ((get_input_info s.muxer s.current_source_priority ≡ none)
            ⊎ ((i : InputInfo) × (get_input_info s.muxer s.current_source_priority ≡ some i)))
          → (s.source_auto_select_enabled || not (has_priority s.muxer s.current_source_priority))
            ≡ false
          → (i : InputInfo) × (get_input_info s.muxer s.current_source_priority ≡ some i)
      selected (inl e) h =
          absurd (ground (arith, has_priority_iff s.muxer s.current_source_priority v, e, h))
      selected (inr q) h = q

  -- The colors of the source, adjusted or not, in a valid state.
  abbrev pub Buffered : ℕ → InputInfo → Hyperion d f × List ColorRgb → Type 0
  Buffered n i r = (length r.1 ≡ length i.led_colors) × IsValid n r.0

  with_adjustment :
      (n : ℕ) (m : MultiColorAdjustment d) (c : Components) (s : Hyperion d f)
      → IsValid n s
      → IsValid n (record s { raw2led_adjustment = m; prev_comp_id = c })
  with_adjustment n m c s v = record {
    count = v.count;
    muxer = v.muxer;
    placed = v.placed;
    orders = v.orders;
    written = v.written;
  }

  adjusted-Buffered :
      (n : ℕ) (p : ℤ) (i : InputInfo) (s : Hyperion d f)
      → IsValid n s
      → Buffered n i (adjusted d f p i s)
  unfolding adjusted select_backlight
  adjusted-Buffered n p i s v = elim (Bool-cases (ltb_ℤ p lowest_priority)) [
    | inr off ↦ rw off (refl, v)
    | inl on ↦ elim (Bool-cases (component_eq i.component_id s.prev_comp_id)) [
      | inl same ↦ rw (on, same) ((apply_adjustment_lem d s.raw2led_adjustment i.led_colors).0, v)
      | inr new ↦
          rw (on, new) ((apply_adjustment_lem d _ i.led_colors).0, with_adjustment n _ _ s v)
    ]
  ]

  colors_of_choice :
      (b : Bool) (l : List ColorRgb) → colors_of (if b then smoothed l else direct l) ≡ l
  colors_of_choice true l = refl
  colors_of_choice false l = refl

  output-IsValid :
      (n : ℕ) (later timeout : ℤ) (colors : List ColorRgb) (s : Hyperion d f)
      → length colors ≡ n
      → IsValid n s
      → Gives (IsValid n) (output d f later timeout colors s)
  unfolding output write_leds
  output-IsValid n later timeout colors s e v =
      let leds = s.led_string in
      let clones = s.led_string_clone in
      let (orders, eo, len_o) =
        color_orders-Gives f leds clones s.led_string_color_order
          (subst (λ k. IsPlaced f k clones) (sym v.count) v.placed)
          (subst
            (λ k.
              (length s.led_string_color_order ≡ 0)
              ⊎ (length s.led_string_color_order ≡ k + length clones))
            (sym v.count) v.orders) in
      let (cloned, ec, len_c) = insert_clones-Gives f clones n colors e v.placed in
      let (ordered, er, len_r) =
        reorder_all-Gives orders cloned (omega (arith, len_o, len_c, v.count)) in
      let sent = pad_black s.hw_led_count ordered in
      let write = if s.smoothing_enabled then smoothed sent else direct sent in
      let size : length (colors_of write) ≡ write_size n s =
        rw (colors_of_choice s.smoothing_enabled sent)
          (omega (arith, length-pad_black s.hw_led_count ordered, len_r, len_c)) in
      let t : Hyperion d f = record s {
        led_string_color_order = orders;
        timer = start_timer d f later timeout;
      } in
      (
        write_leds d f sent t,
        rw (eo, ec, er) refl,
        record {
          count = v.count;
          muxer = v.muxer;
          placed = v.placed;
          orders = inr (omega (arith, len_o, v.count));
          written =
              All-append (λ w. length (colors_of w) ≡ write_size n s) s.writes (write ∷ [])
                v.written (size, tt);
        },
      )

  pub update-IsValid :
      (n : ℕ) (now later : ℤ) (s : Hyperion d f)
      → IsValid n s
      → Gives (IsValid n) (update d f now later s)
  unfolding update get_input_info
  update-IsValid n now later s v =
      let t : Hyperion d f = record s { muxer = set_current_time now s.muxer } in
      let v' : IsValid n t = record {
        count = v.count;
        muxer = set_current_time-HasLeds n now s.muxer v.muxer;
        placed = v.placed;
        orders = v.orders;
        written = v.written;
      } in
      let p = Core.get_current_priority d f t in
      let (i, e) = current-active t v'.muxer.valid in
      let r = adjusted d f p i t in
      let (size, w) = adjusted-Buffered n p i t v' in
      let sized = All-find (IsSized n) p t.muxer.active_inputs e v'.muxer.sized in
      let (u, e', w') =
        output-IsValid n later i.timeout_time_ms r.1 r.0 (omega (arith, size, sized)) w in
      (u, rw e e', w')
