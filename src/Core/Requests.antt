-- ===== src/Core/Requests.antt =====
-- The requests to libsrc/hyperion/Hyperion.cpp: colors, clearing, and the choice of the source.
use hyperion_ng_beta.Prelude.{
  >>=-eq-some, Gives-some, subst, ℕ, ℤ, pos, ◌≡◌, refl, arith, Bool, true, false, ltb_ℤ, List, [],
  ◌∷◌, Option, none, some, length, length-replicate, replicate, Gives, inl, All, Gives-bind,
}
use hyperion_ng_beta.Color.{ColorRgb, black}
use hyperion_ng_beta.Components.{Components, comp_color}
use hyperion_ng_beta.QMap.{insert, is_some}
use hyperion_ng_beta.Muxer
use hyperion_ng_beta.Muxer.{
  PriorityMuxer, InputInfo, lowest_priority, no_timeout, set_input, clear_input, clear_all,
  set_current_time, has_priority, get_input_info, sweep, is_expired, min_element, with_current,
}
use hyperion_ng_beta.Muxer.Invariant
use hyperion_ng_beta.Muxer.Invariant.{
  info, init-IsValid, set_input-IsValid, clear_input-IsValid, clear_all-IsValid,
}
use hyperion_ng_beta.Adjust.Doubles.{Doubles}
use hyperion_ng_beta.Adjust.Multi.{MultiColorAdjustment, verify_adjustments}
use hyperion_ng_beta.Leds.Led.{Fractions, Led}
use hyperion_ng_beta.Core
use hyperion_ng_beta.Core.{
  Hyperion, Written, smoothed, direct, EffectSignal, channel_cleared, all_channels_cleared,
  select_backlight, adjusted, write_leds, output, update, set_current_source_priority,
  set_source_auto_select_enabled, signal, set_colors, set_color, construct, initialize,
  reselect_source, update_if, clear_active, clear, clearall, set_smoothing_enabled, pad_black,
  insert_clones, color_orders, reorder_all,
}
use hyperion_ng_beta.Forwarder.{MessageForwarder, ForwarderConfig, create_message_forwarder}
use hyperion_ng_beta.Forwarder.Addresses.{AllAddresses, create_message_forwarder-Gives}
use hyperion_ng_beta.Wire.Buffer.{IsPlaced}
use hyperion_ng_beta.Core.Sources.{IsValid, update-IsValid, current-active, write_size, colors_of}
use hyperion_ng_beta.Core.Operations.{
  with_input, select_source-IsValid, auto_select-IsValid, set_colors-IsValid, clear-IsValid,
  clearall-IsValid,
}

-- The requests, each with the times that it reads. Colors come one for each of `n` leds, and no
-- request gives the lowest channel a timeout.
pub data Request (n : ℕ) : Type 0 where
  updates : ℤ → ℤ → Request n
  sets_colors :
      ℤ
      → ℤ
      → ℤ
      → (priority : ℤ) → (colors : List ColorRgb) → (timeout_ms : ℤ) → Bool
      → Components
      → length colors ≡ n
      → (priority ≡ lowest_priority → ltb_ℤ (pos 0) timeout_ms ≡ false)
      → Request n
  sets_color :
      ℤ
      → ℤ
      → ℤ
      → (priority : ℤ) → ColorRgb
      → (timeout_ms : ℤ) → Bool
      → (priority ≡ lowest_priority → ltb_ℤ (pos 0) timeout_ms ≡ false)
      → Request n
  clears : ℤ → ℤ → ℤ → Request n
  clears_all : ℤ → ℤ → Request n
  selects_source : ℤ → Request n
  selects_auto : ℤ → ℤ → Bool → Request n
  smooths : Bool → Request n

module _ (d : Doubles) (f : Fractions) where
  -- What the state is afterwards, for `n` leds; `none` is an exception or a position out of range.
  abbrev pub step : {n : ℕ} → Hyperion d f → Request n → Option (Hyperion d f)
  step s (updates now later) = update d f now later s
  step s (sets_colors now now_update later p l t b c e h) =
      set_colors d f now now_update later p l t b c s
  step s (sets_color now now_update later p c t b h) = set_color d f now now_update later p c t b s
  step s (clears now later p) = clear d f now later p s
  step s (clears_all now later) = clearall d f now later s
  step s (selects_source p) = some (set_current_source_priority d f p s).0
  step s (selects_auto now later b) = set_source_auto_select_enabled d f now later b s
  step s (smooths b) = some (set_smoothing_enabled d f b s)

  abbrev pub run : {n : ℕ} → Option (Hyperion d f) → List (Request n) → Option (Hyperion d f)
  run none rs = none
  run (some s) [] = some s
  run (some s) (r ∷ rs) = run (step s r) rs

  pub step-IsValid :
      (n : ℕ) (s : Hyperion d f) (r : Request n)
      → IsValid d f n s
      → Gives (IsValid d f n) (step s r)
  unfolding set_smoothing_enabled set_color
  step-IsValid n s (updates now later) v = update-IsValid d f n now later s v
  step-IsValid n s (sets_colors now now_update later p l t b c e h) v =
      set_colors-IsValid d f n now now_update later p l t b c s e h v
  step-IsValid n s (sets_color now now_update later p c t b h) v =
      set_colors-IsValid d f n now now_update later p (replicate (length s.led_string) c) t b
        comp_color s (omega (arith, length-replicate (length s.led_string) c, v.count)) h v
  step-IsValid n s (clears now later p) v = clear-IsValid d f n now later p s v
  step-IsValid n s (clears_all now later) v = clearall-IsValid d f n now later s v
  step-IsValid n s (selects_source p) v = (_, refl, select_source-IsValid d f n p s v)
  step-IsValid n s (selects_auto now later b) v = auto_select-IsValid d f n now later b s v
  step-IsValid n s (smooths b) v = (
    _,
    refl,
    with_input d f n s.muxer s.source_auto_select_enabled s.current_source_priority b
        s.effect_signals s v.muxer v,
  )

  run-IsValid :
      (n : ℕ) (s : Hyperion d f) (rs : List (Request n))
      → IsValid d f n s
      → Gives (IsValid d f n) (run (some s) rs)
  run-IsValid n s [] v = (s, refl, v)
  run-IsValid n s (r ∷ rs) v =
      let (t, e, w) = step-IsValid n s r v in
      let (u, e', w') = run-IsValid n t rs w in (u, rw (e, run) e', w')

  initialize-IsValid :
      (now later : ℤ) (leds clones : List (Led f)) (a : MultiColorAdjustment d)
      (m : MessageForwarder) (hw : Option ℤ) (b : Bool) (c : Components) (p : ℤ)
      → IsPlaced f (length leds) clones
      → (verify_adjustments d a).1 ≡ true
      → Gives (IsValid d f (length leds)) (initialize d f now later leds clones a m hw b c p)
  unfolding initialize Muxer.init insert
  initialize-IsValid now later leds clones a m hw b c p placed ok = rw ok (
      update-IsValid d f (length leds) now later _ (record {
        count = refl;
        muxer = record {
          valid = init-IsValid (length leds) c;
          sized = (length-replicate (length leds) black, tt);
          lowest_sized = length-replicate (length leds) black;
        };
        placed = placed;
        orders = inl refl;
        written = tt;
      }))

  pub construct-IsValid :
      (to_ushort : List ℕ → Option ℕ) (config : ForwarderConfig) (now later : ℤ)
      (leds clones : List (Led f)) (a : MultiColorAdjustment d) (hw : Option ℤ) (b : Bool)
      (c : Components) (p : ℤ)
      → AllAddresses to_ushort config.json
      → IsPlaced f (length leds) clones
      → (verify_adjustments d a).1 ≡ true
      → Gives
          (IsValid d f (length leds))
          (construct d f to_ushort config now later leds clones a hw b c p)
  unfolding construct
  construct-IsValid to_ushort config now later leds clones a hw b c p addresses placed ok =
      Gives-bind (λ _. Unit {0}) (IsValid d f (length leds)) _ _
        (create_message_forwarder-Gives to_ushort config addresses)
        (λ m _. initialize-IsValid now later leds clones a m hw b c p placed ok)

  -- The state that the constructor makes, where it throws nothing.
  pub constructed-IsValid :
      (to_ushort : List ℕ → Option ℕ) (config : ForwarderConfig) (now later : ℤ)
      (leds clones : List (Led f)) (a : MultiColorAdjustment d) (hw : Option ℤ) (b : Bool)
      (c : Components) (p : ℤ) (h : Hyperion d f)
      → IsPlaced f (length leds) clones
      → (verify_adjustments d a).1 ≡ true
      → construct d f to_ushort config now later leds clones a hw b c p ≡ some h
      → IsValid d f (length leds) h
  unfolding construct
  constructed-IsValid to_ushort config now later leds clones a hw b c p h placed ok made =
      let (m, _, done) = >>=-eq-some (create_message_forwarder to_ushort config) _ made in
      let valid = initialize-IsValid now later leds clones a m hw b c p placed ok in
      Gives-some (IsValid d f (length leds)) (subst (Gives (IsValid d f (length leds))) done valid)

  -- For leds whose clones can be inserted, adjustments that verify, and JSON addresses to forward
  -- to that are a host and a port that QString::toUShort reads, with one colon between them, the
  -- constructor of Hyperion throws nothing, and after it no sequence of requests (colors,
  -- clearing, choosing a source, updates) throws an exception or reads or inserts behind the end
  -- of a vector, as long as colors come one for each led and none gives the lowest channel a
  -- timeout; the muxer stays valid, the current priority active, and each write to the device has
  -- one color for each led and each clone, padded to the number of hardware leds.
  pub run-construct :
      (to_ushort : List ℕ → Option ℕ) (config : ForwarderConfig) (now later : ℤ)
      (leds clones : List (Led f)) (a : MultiColorAdjustment d) (hw : Option ℤ) (b : Bool)
      (c : Components) (p : ℤ) (rs : List (Request (length leds)))
      → AllAddresses to_ushort config.json
      → IsPlaced f (length leds) clones
      → (verify_adjustments d a).1 ≡ true
      → (t : Hyperion d f) × (run
            (construct d f to_ushort config now later leds clones a hw b c p)
            rs
          ≡ some t)
        × Invariant.IsValid t.muxer
        × (is_some (get_input_info t.muxer (Core.get_current_priority d f t)) ≡ true)
        × All (λ w. length (colors_of w) ≡ write_size d f (length leds) t) t.writes
  run-construct to_ushort config now later leds clones a hw b c p rs addresses placed ok =
      let (s, e, v) =
        construct-IsValid to_ushort config now later leds clones a hw b c p addresses placed ok in
      let (t, e', v') = run-IsValid (length leds) s rs v in
      let (i, current) = current-active d f t v'.muxer.valid in
      (t, rw e e', v'.muxer.valid, rw current refl, v'.written)
