-- ===== src/Core/Config.antt =====
-- The led layout of the configuration: `createLedString`, `createLedStringClone` and
-- `getLedLayoutGridSize` in libsrc/hyperion/Hyperion.cpp.
use Prim.Native.String.{String}
use mathlib.Core.List.{Perm}
use hyperion_ng_beta.Prelude.{
  ℕ, ℤ, pos, negsuc, ◌≡◌, Bool, true, false, ◌||◌, if◌then◌else◌, leb, ◌==◌, ltb_ℤ, leb_ℤ, List, [],
  ◌∷◌, Option, none, some, length, ◌≤◌,
}
use hyperion_ng_beta.Leds.Led.{
  ColorOrder, color_order_to_string, string_to_color_order, Fractions, Led,
}
use hyperion_ng_beta.Leds.ImageProcessor.{to_unsigned}

-- The values of a led in the configuration, with the defaults put in: `colorOrder` has the order of
-- the device as its default, and `clone` -1.
pub record LedConfig (Raw : Type 0) : Type 0 where
  pub index : ℤ
  pub clone : ℤ
  pub hscan_minimum : Raw
  pub hscan_maximum : Raw
  pub vscan_minimum : Raw
  pub vscan_maximum : Raw
  pub color_order : Option String

-- What the layout computes of `double` values.
pub record Scans (f : Fractions) : Type 1 where
  pub Raw : Type 0
  -- std::max(0.0, std::min(1.0, x))
  pub clamp : Raw → f.Frac
  pub zero_frac : f.Frac
  -- a > b
  pub gtb : f.Frac → f.Frac → Bool
  pub gtb-asym : (a b : f.Frac) → gtb a b ≡ true → gtb b a ≡ false
  -- int(1000.0 * (a + b) / 2.0)
  pub mid_point : f.Frac → f.Frac → ℕ

-- The leds come by ascending indices, the first of them at least `n`.
abbrev pub FromIndex : {f : Fractions} → ℕ → List (Led f) → Type 0
FromIndex n [] = Unit
FromIndex n (l ∷ ls) = (n ≤ l.index) × FromIndex l.index ls

-- std::sort by the indices, which leaves open in which order equal ones come.
pub record Sorts (f : Fractions) : Type 1 where
  pub sort : List (Led f) → List (Led f)
  pub sort-Perm : (l : List (Led f)) → Perm (sort l) l
  pub sort-FromIndex : (l : List (Led f)) → FromIndex 0 (sort l)

-- A clone index out of range is ignored.
unfoldable pub valid_clone : ℕ → ℤ → ℤ
valid_clone max_led_id clone =
    if ltb_ℤ clone (negsuc 0) || leb_ℤ (pos max_led_id) clone then negsuc 0 else clone

module _ (f : Fractions) (s : Scans f) (r : Sorts f) where
  unfoldable pub read_color_order : ColorOrder → Option String → ColorOrder
  read_color_order device_order none = string_to_color_order (color_order_to_string device_order)
  read_color_order device_order (some order) = string_to_color_order order

  -- Two ends of a scan in order: swapped if the first is greater.
  unfoldable pub ends : s.Raw → s.Raw → f.Frac × f.Frac
  ends minimum maximum =
      let a = s.clamp minimum in let b = s.clamp maximum in if s.gtb a b then (b, a) else (a, b)

  unfoldable pub read_led : ColorOrder → ℤ → LedConfig s.Raw → Led f
  read_led device_order clone config =
      let x = ends config.hscan_minimum config.hscan_maximum in
      let y = ends config.vscan_minimum config.vscan_maximum in
      record {
        index = to_unsigned config.index;
        min_x_frac = x.0;
        max_x_frac = x.1;
        min_y_frac = y.0;
        max_y_frac = y.1;
        clone = clone;
        color_order = read_color_order device_order config.color_order;
      }

  unfoldable pub read_clone : ColorOrder → ℤ → LedConfig s.Raw → Led f
  read_clone device_order clone config = record {
    index = to_unsigned config.index;
    min_x_frac = s.zero_frac;
    max_x_frac = s.zero_frac;
    min_y_frac = s.zero_frac;
    max_y_frac = s.zero_frac;
    clone = clone;
    color_order = read_color_order device_order config.color_order;
  }

  -- The loops over the configuration, of `max_led_id` leds.
  unfoldable pub read_leds : ColorOrder → ℕ → List (LedConfig s.Raw) → List (Led f)
  read_leds device_order max_led_id [] = []
  read_leds device_order max_led_id (config ∷ l) =
      let clone = valid_clone max_led_id config.clone in
      let rest = read_leds device_order max_led_id l in
      if ltb_ℤ clone (pos 0) then read_led device_order clone config ∷ rest else rest

  unfoldable pub read_clones : ColorOrder → ℕ → List (LedConfig s.Raw) → List (Led f)
  read_clones device_order max_led_id [] = []
  read_clones device_order max_led_id (config ∷ l) =
      let clone = valid_clone max_led_id config.clone in
      let rest = read_clones device_order max_led_id l in
      if leb_ℤ (pos 0) clone then read_clone device_order clone config ∷ rest else rest

  unfoldable pub create_led_string : ColorOrder → List (LedConfig s.Raw) → List (Led f)
  create_led_string device_order configs = r.sort (read_leds device_order (length configs) configs)

  unfoldable pub create_led_string_clone : ColorOrder → List (LedConfig s.Raw) → List (Led f)
  create_led_string_clone device_order configs =
      r.sort (read_clones device_order (length configs) configs)

  -- The mid points of the leds that are no clones, along one axis.
  unfoldable pub mid_points : (LedConfig s.Raw → f.Frac × f.Frac) → List (LedConfig s.Raw) → List ℕ
  mid_points scan [] = []
  mid_points scan (config ∷ l) =
      let rest = mid_points scan l in
      if ltb_ℤ config.clone (pos 0)
      then s.mid_point (scan config).0 (scan config).1 ∷ rest
      else rest

-- `std::sort` on numbers, where equal ones cannot be told apart.
unfoldable pub insert_sorted : ℕ → List ℕ → List ℕ
insert_sorted n [] = n ∷ []
insert_sorted n (m ∷ l) = let rest = insert_sorted n l in if leb n m then n ∷ m ∷ l else m ∷ rest

unfoldable pub sort_numbers : List ℕ → List ℕ
sort_numbers [] = []
sort_numbers (n ∷ l) = insert_sorted n (sort_numbers l)

-- `std::unique`: the first of each run of equal neighbours.
unfoldable pub unique_after : ℕ → List ℕ → List ℕ
unique_after n [] = []
unique_after n (m ∷ l) = let rest = unique_after m l in if n == m then rest else m ∷ rest

unfoldable pub unique : List ℕ → List ℕ
unique [] = []
unique (n ∷ l) = n ∷ unique_after n l

module _ (f : Fractions) (s : Scans f) (r : Sorts f) where
  unfoldable pub get_led_layout_grid_size : List (LedConfig s.Raw) → ℕ × ℕ
  get_led_layout_grid_size configs =
      let x = λ (c : LedConfig s.Raw). ends f s r c.hscan_minimum c.hscan_maximum in
      let y = λ (c : LedConfig s.Raw). ends f s r c.vscan_minimum c.vscan_maximum in
      (
        length (unique (sort_numbers (mid_points f s r x configs))),
        length (unique (sort_numbers (mid_points f s r y configs))),
      )
