-- ===== src/Core.antt =====
-- libsrc/hyperion/Hyperion.cpp and include/hyperion/Hyperion.h: input sources, their selection, and the
-- output to the led device. The time is an argument of each method that asks for it. The signals to
-- the effect engine and the writes to the device are collected in the state.
use Prim.Native.Nat.{max}
use hyperion_ng_beta.Prelude.{
  ℕ, zero, suc, ℤ, pos, negsuc, ◌+◌, ◌-◌, ◌%◌, Bool, true, false, not, ◌&&◌, ◌||◌, if◌then◌else◌,
  ltb, leb, ◌==◌, ltb_ℤ, leb_ℤ, eqb_ℤ, max_ℤ, to_int32, u32, ◌+ℤ◌, ◌-ℤ◌, List, [], ◌∷◌, ◌++◌, map,
  Option, none, some, ◌>>=◌, get_elem?, length, replicate,
}
use hyperion_ng_beta.Color.{ColorRgb, black}
use hyperion_ng_beta.Components.{Components, comp_color, comp_effect, comp_invalid, component_eq}
use hyperion_ng_beta.Muxer
use hyperion_ng_beta.Muxer.{
  PriorityMuxer, InputInfo, lowest_priority, no_timeout, set_input, clear_input, clear_all,
  set_current_time, has_priority, get_input_info,
}
use hyperion_ng_beta.Adjust.Doubles.{Doubles}
use hyperion_ng_beta.Adjust.Multi.{
  MultiColorAdjustment, verify_adjustments, set_backlight_enabled, apply_adjustment,
}
use hyperion_ng_beta.Leds.Led.{
  ColorOrder, order_rgb, order_bgr, order_rbg, order_grb, order_gbr, order_brg, Fractions, Led,
}
use hyperion_ng_beta.Leds.ImageProcessor.{to_unsigned}
use hyperion_ng_beta.Forwarder.{MessageForwarder, ForwarderConfig, create_message_forwarder}
use hyperion_ng_beta.Wire.{reorder_all, insert_clones, color_orders, pad_black}
pub mod Config
pub mod Layout
pub mod Channels
pub mod Sources
pub mod Operations
pub mod Clear
pub mod Signals
pub mod Requests
pub mod Tests

-- The calls of the effect engine.
pub data EffectSignal : Type 0 where
  channel_cleared : ℤ → EffectSignal
  all_channels_cleared : EffectSignal

-- A write to the device: through the smoothing, or directly.
pub data Written : Type 0 where
  smoothed : List ColorRgb → Written
  direct : List ColorRgb → Written

pub record Hyperion (d : Doubles) (f : Fractions) : Type 0 where
  pub led_string : List (Led f)
  pub led_string_clone : List (Led f)
  pub muxer : PriorityMuxer
  pub raw2led_adjustment : MultiColorAdjustment d
  pub message_forwarder : MessageForwarder
  pub led_string_color_order : List ColorOrder
  pub hw_led_count : ℕ
  pub source_auto_select_enabled : Bool
  pub current_source_priority : ℤ
  pub prev_comp_id : Components
  pub smoothing_enabled : Bool
  -- The single-shot timer that calls `update`: its time in milliseconds while it runs.
  pub timer : Option ℤ
  pub effect_signals : List EffectSignal
  pub writes : List Written

module _ (d : Doubles) (f : Fractions) where
  unfoldable pub get_current_priority : Hyperion d f → ℤ
  get_current_priority s =
      if s.source_auto_select_enabled || not (has_priority s.muxer s.current_source_priority)
      then Muxer.get_current_priority s.muxer
      else s.current_source_priority

  -- The backlight is off for plain colors and for effects; it is set again when the component changes.
  unfoldable pub select_backlight : Components → Hyperion d f → Hyperion d f
  select_backlight component s =
      let backlight =
        not (component_eq component comp_color) && not (component_eq component comp_effect) in
      if component_eq component s.prev_comp_id then s else record s {
        raw2led_adjustment = set_backlight_enabled d backlight s.raw2led_adjustment;
        prev_comp_id = component;
      }

  unfoldable pub adjusted : ℤ → InputInfo → Hyperion d f → Hyperion d f × List ColorRgb
  adjusted priority info s =
      let t = select_backlight info.component_id s in
      if ltb_ℤ priority lowest_priority
      then (t, apply_adjustment d t.raw2led_adjustment info.led_colors)
      else (s, info.led_colors)

  unfoldable pub start_timer : ℤ → ℤ → Option ℤ
  start_timer now timeout =
      if eqb_ℤ timeout no_timeout
      then none
      else some (
          max_ℤ (pos 0) (elim (timeout -ℤ now) [
            | pos n ↦ to_int32 n
            | negsuc n ↦ to_int32 (u32 - suc n % u32)
          ]))

  unfoldable pub write_leds : List ColorRgb → Hyperion d f → Hyperion d f
  write_leds colors s = record s {
    writes = s.writes ++ (if s.smoothing_enabled then smoothed colors else direct colors) ∷ [];
  }

  -- The second half of `update`: from the colors of the source to the device.
  unfoldable pub output : ℤ → ℤ → List ColorRgb → Hyperion d f → Option (Hyperion d f)
  output later timeout colors s = do
    orders ← color_orders f s.led_string s.led_string_clone s.led_string_color_order
    cloned ← insert_clones f s.led_string_clone colors
    ordered ← reorder_all orders cloned
    some (
        write_leds (pad_black s.hw_led_count ordered)
          (record s { led_string_color_order = orders; timer = start_timer later timeout }))

  -- `now` and `later` are the two times that the method reads; `none` is an exception or a position
  -- behind the end of a vector.
  unfoldable pub update : ℤ → ℤ → Hyperion d f → Option (Hyperion d f)
  update now later s = do
    let t : Hyperion d f = record s { muxer = set_current_time now s.muxer }
    info ← get_input_info t.muxer (get_current_priority t)
    let r = adjusted (get_current_priority t) info t
    output later info.timeout_time_ms r.1 r.0

  unfoldable pub set_current_source_priority : ℤ → Hyperion d f → Hyperion d f × Bool
  set_current_source_priority priority s =
      if has_priority s.muxer priority
      then (
        record s { source_auto_select_enabled = false; current_source_priority = priority },
        true,
      )
      else (s, false)

  unfoldable pub set_source_auto_select_enabled :
      ℤ → ℤ → Bool → Hyperion d f → Option (Hyperion d f)
  set_source_auto_select_enabled now later enabled s =
      let t : Hyperion d f = record s { source_auto_select_enabled = enabled } in
      if enabled
      then update now later t
      else update now later (set_current_source_priority (Muxer.get_current_priority t.muxer) t).0

  unfoldable pub signal : EffectSignal → Hyperion d f → Hyperion d f
  signal e s = record s { effect_signals = s.effect_signals ++ e ∷ [] }

  -- The time of `setColors` is `now`; `update` reads its own times after it.
  unfoldable pub set_colors :
      ℤ → ℤ → ℤ → ℤ → List ColorRgb → ℤ → Bool → Components → Hyperion d f → Option (Hyperion d f)
  set_colors now now_update later priority led_colors timeout_ms clear_effects component s =
      let cleared = if clear_effects then signal (channel_cleared priority) s else s in
      let timeout_time = if ltb_ℤ (pos 0) timeout_ms then now +ℤ timeout_ms else no_timeout in
      let t : Hyperion d f = record cleared {
        muxer = set_input priority led_colors timeout_time component cleared.muxer;
      } in
      if not t.source_auto_select_enabled || eqb_ℤ priority (Muxer.get_current_priority t.muxer)
      then update now_update later t
      else some t

  unfoldable pub set_color :
      ℤ → ℤ → ℤ → ℤ → ColorRgb → ℤ → Bool → Hyperion d f → Option (Hyperion d f)
  set_color now now_update later priority color timeout_ms clear_effects s =
      set_colors now now_update later priority (replicate (length s.led_string) color) timeout_ms
        clear_effects comp_color s

  unfoldable pub reselect_source : ℤ → ℤ → ℤ → Hyperion d f → Option (Hyperion d f)
  reselect_source now later priority s =
      if not s.source_auto_select_enabled && eqb_ℤ s.current_source_priority priority
      then set_source_auto_select_enabled now later true s
      else some s

  unfoldable pub update_if : Bool → ℤ → ℤ → Hyperion d f → Option (Hyperion d f)
  update_if b now later s = if b then update now later s else some s

  -- The body of the `if` of `clear`.
  unfoldable pub clear_active : ℤ → ℤ → ℤ → Hyperion d f → Option (Hyperion d f)
  clear_active now later priority s = do
    m ← clear_input priority s.muxer
    t ← reselect_source now later priority (record s { muxer = m })
    update_if (ltb_ℤ priority (Muxer.get_current_priority t.muxer)) now later t

  unfoldable pub clear : ℤ → ℤ → ℤ → Hyperion d f → Option (Hyperion d f)
  clear now later priority s = do
    t ← if has_priority s.muxer priority then clear_active now later priority s else some s
    some (signal (channel_cleared priority) t)

  unfoldable pub clearall : ℤ → ℤ → Hyperion d f → Option (Hyperion d f)
  clearall now later s = do
    t ← set_source_auto_select_enabled now later true (record s { muxer = clear_all s.muxer })
    u ← update now later t
    some (signal all_channels_cleared u)

  -- The component `COMP_SMOOTHING` of `setComponentState`.
  unfoldable pub set_smoothing_enabled : Bool → Hyperion d f → Hyperion d f
  set_smoothing_enabled enable s = record s { smoothing_enabled = enable }

  -- `ledCount` of the device, an int that becomes an unsigned, where it is none the number of leds.
  unfoldable pub to_hw_led_count : Option ℤ → ℕ → ℕ
  to_hw_led_count none n = n
  to_hw_led_count (some count) n = max (to_unsigned count) n

  -- The body of the constructor.
  unfoldable pub initialize :
      ℤ
      → ℤ
      → List (Led f)
      → List (Led f)
      → MultiColorAdjustment d
      → MessageForwarder
      → Option ℤ
      → Bool
      → Components
      → ℤ
      → Option (Hyperion d f)
  initialize now later leds clones adjustment forwarder led_count smoothing component source =
      let (m, ok) = verify_adjustments d adjustment in
      if ok
      then update now later (record {
        led_string = leds;
        led_string_clone = clones;
        muxer = Muxer.init (length leds) component;
        raw2led_adjustment = m;
        message_forwarder = forwarder;
        led_string_color_order = [];
        hw_led_count = to_hw_led_count led_count (length leds);
        source_auto_select_enabled = true;
        current_source_priority = source;
        prev_comp_id = comp_invalid;
        smoothing_enabled = smoothing;
        timer = none;
        effect_signals = [];
        writes = [];
      })
      else none

  -- The constructor: the leds, the adjustments, the forwarder and `ledCount` come from the
  -- configuration; `component` and `source` are what unset members hold. `none` is an exception. The
  -- led device is made by LedDeviceFactory, which catches the exceptions of all devices.
  unfoldable pub construct :
      (List ℕ → Option ℕ)
      → ForwarderConfig
      → ℤ
      → ℤ
      → List (Led f)
      → List (Led f)
      → MultiColorAdjustment d
      → Option ℤ
      → Bool
      → Components
      → ℤ
      → Option (Hyperion d f)
  construct to_ushort config now later leds clones adjustment led_count smoothing component source =
      do
        forwarder ← create_message_forwarder to_ushort config
        initialize now later leds clones adjustment forwarder led_count smoothing component source
