-- ===== src/Core/Operations.antt =====
-- Every operation of libsrc/hyperion/Hyperion.cpp gives a valid state again.
use hyperion_ng_beta.Prelude.{
  ℕ, ℤ, pos, ◌+ℤ◌, ◌≡◌, refl, Bool, true, false, not, ◌&&◌, if◌then◌else◌, ltb_ℤ, eqb_ℤ, List, [],
  ◌∷◌, ◌++◌, length, Gives, Gives-bind, Gives-if, inl, inr, Bool-cases,
}
use hyperion_ng_beta.Color.{ColorRgb}
use hyperion_ng_beta.Components.{Components}
use hyperion_ng_beta.Muxer
use hyperion_ng_beta.Muxer.{
  PriorityMuxer, InputInfo, lowest_priority, no_timeout, set_input, clear_input, clear_all,
  set_current_time, has_priority, get_input_info, sweep, is_expired, min_element, with_current,
}
use hyperion_ng_beta.Adjust.Doubles.{Doubles}
use hyperion_ng_beta.Leds.Led.{Fractions}
use hyperion_ng_beta.Core.{
  Hyperion, EffectSignal, channel_cleared, all_channels_cleared, set_current_source_priority,
  set_source_auto_select_enabled, signal, set_colors, reselect_source, update_if, clear_active,
  clear, clearall,
}
use hyperion_ng_beta.Core.Channels.{
  HasLeds, set_input-HasLeds, clear_all-HasLeds, clear_input-HasLeds,
}
use hyperion_ng_beta.Core.Sources.{IsValid, update-IsValid}

module _ (d : Doubles) (f : Fractions) where
  -- A state that differs only in its muxer, its selection, the smoothing and its signals.
  pub with_input :
      (n : ℕ) (m : PriorityMuxer) (auto : Bool) (p : ℤ) (smooth : Bool) (e : List EffectSignal)
      (s : Hyperion d f)
      → HasLeds n m
      → IsValid d f n s
      → IsValid d f n (record s {
        muxer = m;
        source_auto_select_enabled = auto;
        current_source_priority = p;
        smoothing_enabled = smooth;
        effect_signals = e;
      })
  with_input n m auto p smooth e s h v = record {
    count = v.count;
    muxer = h;
    placed = v.placed;
    orders = v.orders;
    written = v.written;
  }

  pub select_source-IsValid :
      (n : ℕ) (p : ℤ) (s : Hyperion d f)
      → IsValid d f n s
      → IsValid d f n (set_current_source_priority d f p s).0
  unfolding set_current_source_priority
  select_source-IsValid n p s v = elim (Bool-cases (has_priority s.muxer p)) [
    | inr off ↦ rw off v
    | inl on ↦ rw on (with_input n s.muxer false p s.smoothing_enabled s.effect_signals s v.muxer v)
  ]

  pub auto_select-IsValid :
      (n : ℕ) (now later : ℤ) (b : Bool) (s : Hyperion d f)
      → IsValid d f n s
      → Gives (IsValid d f n) (set_source_auto_select_enabled d f now later b s)
  unfolding set_source_auto_select_enabled
  auto_select-IsValid n now later b s v =
      let t : Hyperion d f = record s { source_auto_select_enabled = b } in
      let v' =
        with_input n s.muxer b s.current_source_priority s.smoothing_enabled s.effect_signals s
          v.muxer v in
      Gives-if (IsValid d f n) b _ _ (λ _. update-IsValid d f n now later t v')
        (λ _.
          update-IsValid d f n now later _
            (select_source-IsValid n (Muxer.get_current_priority t.muxer) t v'))

  pub with_muxer :
      (n : ℕ) (m : PriorityMuxer) (s : Hyperion d f)
      → HasLeds n m
      → IsValid d f n s
      → IsValid d f n (record s { muxer = m })
  with_muxer n m s h v =
      with_input n m s.source_auto_select_enabled s.current_source_priority s.smoothing_enabled
        s.effect_signals s h v

  pub signal-IsValid :
      (n : ℕ) (e : EffectSignal) (s : Hyperion d f)
      → IsValid d f n s
      → IsValid d f n (signal d f e s)
  unfolding signal
  signal-IsValid n e s v =
      with_input n s.muxer s.source_auto_select_enabled s.current_source_priority
        s.smoothing_enabled (s.effect_signals ++ e ∷ []) s v.muxer v

  pub set_colors-IsValid :
      (n : ℕ) (now now_update later p : ℤ) (l : List ColorRgb) (t : ℤ) (b : Bool) (c : Components)
      (s : Hyperion d f)
      → length l ≡ n
      → (p ≡ lowest_priority → ltb_ℤ (pos 0) t ≡ false)
      → IsValid d f n s
      → Gives (IsValid d f n) (set_colors d f now now_update later p l t b c s)
  unfolding set_colors
  set_colors-IsValid n now now_update later p l t b c s e h v =
      let cleared = if b then signal d f (channel_cleared p) s else s in
      let at = if ltb_ℤ (pos 0) t then now +ℤ t else no_timeout in
      let v' : IsValid d f n cleared = elim (Bool-cases b) [
        | inl on ↦ rw on (signal-IsValid n (channel_cleared p) s v)
        | inr off ↦ rw off v
      ] in
      let m = set_input p l at c cleared.muxer in
      let w =
        with_muxer n m cleared
          (set_input-HasLeds n p l at c cleared.muxer e (λ q. rw (h q) refl) v'.muxer) v' in
      Gives-if (IsValid d f n) _ _ _ (λ _. update-IsValid d f n now_update later _ w)
        (λ _. (_, refl, w))

  reselect-IsValid :
      (n : ℕ) (now later p : ℤ) (s : Hyperion d f)
      → IsValid d f n s
      → Gives (IsValid d f n) (reselect_source d f now later p s)
  unfolding reselect_source
  reselect-IsValid n now later p s v =
      Gives-if (IsValid d f n)
        (not s.source_auto_select_enabled && eqb_ℤ s.current_source_priority p) _ _
        (λ _. auto_select-IsValid n now later true s v) (λ _. (_, refl, v))

  update_if-IsValid :
      (n : ℕ) (b : Bool) (now later : ℤ) (s : Hyperion d f)
      → IsValid d f n s
      → Gives (IsValid d f n) (update_if d f b now later s)
  unfolding update_if
  update_if-IsValid n b now later s v =
      Gives-if (IsValid d f n) b _ _ (λ _. update-IsValid d f n now later s v) (λ _. (_, refl, v))

  clear_active-IsValid :
      (n : ℕ) (now later p : ℤ) (s : Hyperion d f)
      → IsValid d f n s
      → Gives (IsValid d f n) (clear_active d f now later p s)
  unfolding clear_active
  clear_active-IsValid n now later p s v =
      Gives-bind (HasLeds n) (IsValid d f n) (clear_input p s.muxer) _
        (clear_input-HasLeds n p s.muxer v.muxer)
        (λ m h.
          Gives-bind (IsValid d f n) (IsValid d f n) _ _
            (reselect-IsValid n now later p _ (with_muxer n m s h v))
            (λ t w.
              update_if-IsValid n (ltb_ℤ p (Muxer.get_current_priority t.muxer)) now later t w))

  pub clear-IsValid :
      (n : ℕ) (now later p : ℤ) (s : Hyperion d f)
      → IsValid d f n s
      → Gives (IsValid d f n) (clear d f now later p s)
  unfolding clear
  clear-IsValid n now later p s v =
      Gives-bind (IsValid d f n) (IsValid d f n) _ _
        (Gives-if (IsValid d f n) (has_priority s.muxer p) _ _
          (λ _. clear_active-IsValid n now later p s v) (λ _. (_, refl, v)))
        (λ t w. (_, refl, signal-IsValid n (channel_cleared p) t w))

  pub clearall-IsValid :
      (n : ℕ) (now later : ℤ) (s : Hyperion d f)
      → IsValid d f n s
      → Gives (IsValid d f n) (clearall d f now later s)
  unfolding clearall
  clearall-IsValid n now later s v =
      Gives-bind (IsValid d f n) (IsValid d f n) _ _
        (auto_select-IsValid n now later true _
          (with_muxer n _ s (clear_all-HasLeds n s.muxer v.muxer) v))
        (λ t w.
          Gives-bind (IsValid d f n) (IsValid d f n) _ _ (update-IsValid d f n now later t w)
            (λ u x. (_, refl, signal-IsValid n all_channels_cleared u x)))
