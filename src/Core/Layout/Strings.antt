-- ===== src/Core/Layout/Strings.antt =====
-- The strings of leds and of clones that libsrc/hyperion/Hyperion.cpp makes of the configuration.
use Prim.Native.String.{String}
use mathlib.Core.List.{Perm}
use hyperion_ng_beta.Prelude.{
  ℕ, zero, suc, ℤ, pos, negsuc, ◌+◌, ◌≡◌, ◌<◌, refl, arith, true, false, leb, ltb_ℤ, leb_ℤ, List,
  [], ◌∷◌, length, Bool-cases, inl, inr, ◌⊎◌,
}
use hyperion_ng_beta.Leds.Led.{ColorOrder, Fractions, Led}
use hyperion_ng_beta.Core.Config.{
  LedConfig, Scans, Sorts, valid_clone, read_led, read_clone, read_leds, read_clones,
  create_led_string, create_led_string_clone,
}
use hyperion_ng_beta.Prelude.{Option, none, some, ◌<ℤ◌, ◌≤ℤ◌}
use hyperion_ng_beta.Leds.Led.{string_to_color_order, string_to_color_order-color_order_to_string}
use hyperion_ng_beta.Leds.ImageProcessor.{to_unsigned}
use hyperion_ng_beta.Core.Config.{FromIndex, read_color_order}
use hyperion_ng_beta.Core.Layout.Scan.{IsScan, ends-IsScan, IsScan-ordered}

-- Whether a clone index of `n` leds makes a led one of its own, or a clone of led `k`.
abbrev pub IsOwn : ℕ → ℤ → Type 0
IsOwn n c = (c <ℤ pos 0) ⊎ (pos n ≤ℤ c)

abbrev pub IsCloneOf : ℕ → ℤ → ℕ → Type 0
IsCloneOf n c k = (c ≡ pos k) × (k < n)

valid_clone_lem :
    (n : ℕ) (c : ℤ)
    → ((valid_clone n c ≡ negsuc 0) × IsOwn n c)
      ⊎ ((k : ℕ) × (valid_clone n c ≡ pos k) × IsCloneOf n c k)
unfolding valid_clone ltb_ℤ leb_ℤ
valid_clone_lem n (pos k) = elim (Bool-cases (leb (n + 0) (k + 0))) [
  | inl big ↦ inl (ground (arith, big), inr (ground (arith, big)))
  | inr small ↦ inr (k, ground (arith, small), (refl, ground (arith, small)))
]
valid_clone_lem n (negsuc zero) = inl (ground arith, inl (ground arith))
valid_clone_lem n (negsuc (suc k)) = inl (ground arith, inl (ground arith))

negative_tests : (ltb_ℤ (negsuc 0) (pos 0) ≡ true) × (leb_ℤ (pos 0) (negsuc 0) ≡ false)
unfolding ltb_ℤ leb_ℤ
negative_tests = (refl, refl)

positive_tests : (k : ℕ) → (ltb_ℤ (pos k) (pos 0) ≡ false) × (leb_ℤ (pos 0) (pos k) ≡ true)
unfolding ltb_ℤ leb_ℤ
positive_tests k = (ground arith, ground arith)

-- The order of the colors of a led: that of the device unless the configuration names one.
abbrev pub HasOrder : ColorOrder → Option String → ColorOrder → Type 0
HasOrder device none order = order ≡ device
HasOrder device (some name) order = order ≡ string_to_color_order name

module _ (f : Fractions) (s : Scans f) where
  -- The led of an entry of the configuration that is no clone.
  pub record IsLed (o : ColorOrder) (c : LedConfig s.Raw) (l : Led f) : Type 0 where
    index : l.index ≡ to_unsigned c.index
    clone : l.clone ≡ negsuc 0
    across : IsScan f s c.hscan_minimum c.hscan_maximum (l.min_x_frac, l.max_x_frac)
    down : IsScan f s c.vscan_minimum c.vscan_maximum (l.min_y_frac, l.max_y_frac)
    ordered : (s.gtb l.min_x_frac l.max_x_frac ≡ false) × (s.gtb l.min_y_frac l.max_y_frac ≡ false)
    order : HasOrder o c.color_order l.color_order

  -- The clone of led `k` that an entry of the configuration asks for.
  pub record IsClone (o : ColorOrder) (c : LedConfig s.Raw) (k : ℕ) (l : Led f) : Type 0 where
    index : l.index ≡ to_unsigned c.index
    clone : l.clone ≡ pos k
    area :
        (l.min_x_frac ≡ s.zero_frac)
        × (l.max_x_frac ≡ s.zero_frac)
        × (l.min_y_frac ≡ s.zero_frac)
        × (l.max_y_frac ≡ s.zero_frac)
    order : HasOrder o c.color_order l.color_order

  -- Each entry of the configuration of `n` leds, in its order, is a led or a clone.
  pub data Divides (o : ColorOrder) (n : ℕ)
      : List (LedConfig s.Raw) → List (Led f) → List (Led f) → Type 0 where
    none_left : Divides o n [] [] []
    own :
        {c : LedConfig s.Raw} {cs : List (LedConfig s.Raw)} {l : Led f} {ls ks : List (Led f)}
        → IsOwn n c.clone
        → IsLed o c l
        → Divides o n cs ls ks
        → Divides o n (c ∷ cs) (l ∷ ls) ks
    copy :
        {c : LedConfig s.Raw} {cs : List (LedConfig s.Raw)} {l : Led f} {ls ks : List (Led f)}
        → (k : ℕ) → IsCloneOf n c.clone k
        → IsClone o c k l
        → Divides o n cs ls ks
        → Divides o n (c ∷ cs) ls (l ∷ ks)

  module _ (r : Sorts f) where
    read_color_order-HasOrder :
        (o : ColorOrder) (name : Option String) → HasOrder o name (read_color_order f s r o name)
    unfolding read_color_order
    read_color_order-HasOrder o none = string_to_color_order-color_order_to_string o
    read_color_order-HasOrder o (some name) = refl

    read_led-IsLed :
        (o : ColorOrder) (c : LedConfig s.Raw) → IsLed o c (read_led f s r o (negsuc 0) c)
    unfolding read_led
    read_led-IsLed o c =
        let across = ends-IsScan f s r c.hscan_minimum c.hscan_maximum in
        let down = ends-IsScan f s r c.vscan_minimum c.vscan_maximum in
        record {
          index = refl;
          clone = refl;
          across = across;
          down = down;
          ordered = (IsScan-ordered f s _ _ _ across, IsScan-ordered f s _ _ _ down);
          order = read_color_order-HasOrder o c.color_order;
        }

    read_clone-IsClone :
        (o : ColorOrder) (c : LedConfig s.Raw) (k : ℕ)
        → IsClone o c k (read_clone f s r o (pos k) c)
    unfolding read_clone
    read_clone-IsClone o c k = record {
      index = refl;
      clone = refl;
      area = (refl, refl, refl, refl);
      order = read_color_order-HasOrder o c.color_order;
    }

    reads-Divides :
        (o : ColorOrder) (n : ℕ) (cs : List (LedConfig s.Raw))
        → Divides o n cs (read_leds f s r o n cs) (read_clones f s r o n cs)
    unfolding read_leds read_clones
    reads-Divides o n [] = none_left
    reads-Divides o n (c ∷ cs) =
        let rest = reads-Divides o n cs in
        elim (valid_clone_lem n c.clone) [
          | inl (named, mine) ↦
              rw (named, negative_tests.0, negative_tests.1) (own mine (read_led-IsLed o c) rest)
          | inr (k, named, of) ↦
              rw (named, (positive_tests k).0, (positive_tests k).1)
                (copy k of (read_clone-IsClone o c k) rest)
        ]

  -- Each entry of the configuration, once, is either a led of the led string, if its clone index
  -- is negative or not below the number of entries, or a clone in the string of clones, and the
  -- strings hold nothing else. A led has the index, the ends of both scans, clamped and in order,
  -- and the color order that the entry asks for; a clone has the index and color order, no area,
  -- and the number of its led. Both strings ascend by the indices.
  pub create_led_string_lem :
      (r : Sorts f) (o : ColorOrder) (cs : List (LedConfig s.Raw))
      → (ls : List (Led f)) × (ks : List (Led f)) × Divides o (length cs) cs ls ks
        × Perm (create_led_string f s r o cs) ls
        × FromIndex 0 (create_led_string f s r o cs)
        × Perm (create_led_string_clone f s r o cs) ks
        × FromIndex 0 (create_led_string_clone f s r o cs)
  unfolding create_led_string create_led_string_clone
  create_led_string_lem r o cs = (
    read_leds f s r o (length cs) cs,
    read_clones f s r o (length cs) cs,
    reads-Divides r o (length cs) cs,
    r.sort-Perm _,
    r.sort-FromIndex _,
    r.sort-Perm _,
    r.sort-FromIndex _,
  )
