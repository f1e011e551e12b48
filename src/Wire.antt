-- ===== src/Wire.antt =====
-- The led buffer in `update` of libsrc/hyperion/Hyperion.cpp: cloned leds are inserted, the bytes are
-- put into the order of the wire, and the buffer is padded to the hardware leds.
use Prim.Native.Nat.{max}
use hyperion_ng_beta.Prelude.{
  ℕ, zero, suc, ℤ, pos, negsuc, ◌+◌, ◌-◌, ◌%◌, Bool, true, false, not, ◌&&◌, ◌||◌, if◌then◌else◌,
  ltb, leb, ◌==◌, ltb_ℤ, leb_ℤ, eqb_ℤ, max_ℤ, to_int32, u32, ◌+ℤ◌, ◌-ℤ◌, List, [], ◌∷◌, ◌++◌, map,
  Option, none, some, ◌>>=◌, get_elem?, length, replicate,
}
use hyperion_ng_beta.Color.{ColorRgb, black}
use hyperion_ng_beta.Components.{Components, comp_color, comp_effect, comp_invalid, component_eq}
use hyperion_ng_beta.Muxer
use hyperion_ng_beta.Muxer.{
  PriorityMuxer, InputInfo, lowest_priority, no_timeout, set_input, clear_input, clear_all,
  set_current_time, has_priority, get_input_info,
}
use hyperion_ng_beta.Adjust.Doubles.{Doubles}
use hyperion_ng_beta.Adjust.Multi.{
  MultiColorAdjustment, verify_adjustments, set_backlight_enabled, apply_adjustment,
}
use hyperion_ng_beta.Leds.Led.{
  ColorOrder, order_rgb, order_bgr, order_rbg, order_grb, order_gbr, order_brg, Fractions, Led,
}
pub mod Order
pub mod Buffer
pub mod Tests

-- `std::swap` on the channels of a color, as the `switch` of `update` does it.
unfoldable pub reorder : ColorOrder → ColorRgb → ColorRgb
reorder order_rgb c = c
reorder order_bgr c = record c { red = c.blue; blue = c.red }
reorder order_rbg c = record c { green = c.blue; blue = c.green }
reorder order_grb c = record c { red = c.green; green = c.red }
reorder order_gbr c =
    let d : ColorRgb = record c { red = c.green; green = c.red } in
    record d { green = d.blue; blue = d.green }
reorder order_brg c =
    let d : ColorRgb = record c { red = c.blue; blue = c.red } in
    record d { green = d.blue; blue = d.green }

-- `insert` of a vector at a position; `none` is a position behind the end.
unfoldable pub insert_at {ℓ} : {A : Type ℓ} → ℕ → A → List A → Option (List A)
insert_at zero a l = some (a ∷ l)
insert_at (suc i) a [] = none
insert_at (suc i) a (x ∷ l) = do r ← insert_at i a l; some (x ∷ r)

-- `at` with an `int` index; `none` is the exception `std::out_of_range`.
unfoldable pub at_index {ℓ} : {A : Type ℓ} → List A → ℤ → Option A
at_index l (pos n) = get_elem? l n
at_index l (negsuc n) = none

-- The loop that corrects the byte order; `none` is the exception of `_ledStringColorOrder.at`.
unfoldable pub reorder_all : List ColorOrder → List ColorRgb → Option (List ColorRgb)
reorder_all orders [] = some []
reorder_all [] (c ∷ colors) = none
reorder_all (o ∷ orders) (c ∷ colors) = do r ← reorder_all orders colors; some (reorder o c ∷ r)

-- `resize` to a size that is not smaller.
unfoldable pub pad_black : ℕ → List ColorRgb → List ColorRgb
pad_black n l = if ltb (length l) n then l ++ replicate (n - length l) black else l

module _ (f : Fractions) where
  -- The loop that fills the color orders of the cloned leds in.
  unfoldable pub insert_orders : List (Led f) → List ColorOrder → Option (List ColorOrder)
  insert_orders [] l = some l
  insert_orders (led ∷ leds) l = do r ← insert_at led.index led.color_order l; insert_orders leds r

  unfoldable pub color_orders :
      List (Led f) → List (Led f) → List ColorOrder → Option (List ColorOrder)
  color_orders leds clones [] = insert_orders clones (map (λ (l : Led f). l.color_order) leds)
  color_orders leds clones (o ∷ l) = some (o ∷ l)

  -- The loop that inserts the cloned leds.
  unfoldable pub insert_clones : List (Led f) → List ColorRgb → Option (List ColorRgb)
  insert_clones [] l = some l
  insert_clones (led ∷ leds) l = do
    c ← at_index l led.clone
    r ← insert_at led.index c l
    insert_clones leds r
