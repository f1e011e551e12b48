-- ===== src/Core/Layout/Tests.antt =====
-- The led layout (libsrc/hyperion/Hyperion.cpp) of two leds and a clone of the second.
use Prim.Native.Nat.{min}
use mathlib.Core.List.{Perm}
use mathlib.Core.List.Perm
use hyperion_ng_beta.Prelude.{
  ℕ, ℤ, pos, negsuc, ◌+◌, ◌*◌, ◌/◌, ◌≤◌, ◌≡◌, arith, true, false, if◌then◌else◌, ltb, leb, leb→le,
  Bool-cases, inl, inr, List, [], ◌∷◌, none,
}
use hyperion_ng_beta.Leds.Led.{Led, percent, order_rgb}
use hyperion_ng_beta.Core.Config.{
  LedConfig, Scans, Sorts, FromIndex, create_led_string, create_led_string_clone,
  get_led_layout_grid_size,
}
use hyperion_ng_beta.Core.Layout.Strings.{Divides, create_led_string_lem}
use hyperion_ng_beta.Core.Layout.Grid.{IsMids, Counts, get_led_layout_grid_size_lem}

gtb_percent-asym : (a b : ℕ) → ltb b a ≡ true → ltb a b ≡ false
gtb_percent-asym a b h = ground arith

abbrev scans : Scans percent
scans = record {
  Raw = ℕ;
  clamp = λ x. min 100 x;
  zero_frac = 0;
  gtb = λ a b. ltb b a;
  gtb-asym = gtb_percent-asym;
  mid_point = λ a b. 10 * (a + b) / 2;
}

abbrev insert_led : Led percent → List (Led percent) → List (Led percent)
insert_led x [] = x ∷ []
insert_led x (l ∷ ls) =
    let rest = insert_led x ls in if leb x.index l.index then x ∷ l ∷ ls else l ∷ rest

abbrev sort_leds : List (Led percent) → List (Led percent)
sort_leds [] = []
sort_leds (l ∷ ls) = insert_led l (sort_leds ls)

insert_led-Perm : (x : Led percent) (ls : List (Led percent)) → Perm (insert_led x ls) (x ∷ ls)
insert_led-Perm x [] = Perm.refl (x ∷ [])
insert_led-Perm x (l ∷ ls) = elim (Bool-cases (leb x.index l.index)) [
  | inl first ↦ rw first (Perm.refl (x ∷ l ∷ ls))
  | inr later ↦ rw later (Perm.trans (Perm.cons l (insert_led-Perm x ls)) (Perm.swap x l ls))
]

sort_leds-Perm : (ls : List (Led percent)) → Perm (sort_leds ls) ls
sort_leds-Perm [] = Perm.refl []
sort_leds-Perm (l ∷ ls) =
    Perm.trans (insert_led-Perm l (sort_leds ls)) (Perm.cons l (sort_leds-Perm ls))

insert_led-FromIndex :
    (n : ℕ) (x : Led percent) (ls : List (Led percent))
    → n ≤ x.index
    → FromIndex n ls
    → FromIndex n (insert_led x ls)
insert_led-FromIndex n x [] h k = (h, tt)
insert_led-FromIndex n x (l ∷ ls) h k = elim (Bool-cases (leb x.index l.index)) [
  | inl first ↦ rw first (h, (leb→le x.index l.index first, k.1))
  | inr later ↦ rw later (k.0, insert_led-FromIndex l.index x ls (ground (arith, later)) k.1)
]

sort_leds-FromIndex : (ls : List (Led percent)) → FromIndex 0 (sort_leds ls)
sort_leds-FromIndex [] = tt
sort_leds-FromIndex (l ∷ ls) =
    insert_led-FromIndex 0 l (sort_leds ls) (omega arith) (sort_leds-FromIndex ls)

abbrev sorts : Sorts percent
sorts = record {
  sort = sort_leds;
  sort-Perm = sort_leds-Perm;
  sort-FromIndex = sort_leds-FromIndex;
}

abbrev config : ℤ → ℤ → ℕ → ℕ → LedConfig ℕ
config i c a b = record {
  index = i;
  clone = c;
  hscan_minimum = a;
  hscan_maximum = b;
  vscan_minimum = 0;
  vscan_maximum = 100;
  color_order = none;
}

abbrev configs : List (LedConfig ℕ)
configs =
    config (pos 2) (negsuc 0) 50 0 ∷ config (pos 0) (pos 7) 50 120 ∷ config (pos 1) (pos 1) 0 0 ∷ []

create_led_string_example :
    (ls : List (Led percent)) × (ks : List (Led percent)) × Divides percent scans order_rgb 3
      configs ls ks
    × Perm (create_led_string percent scans sorts order_rgb configs) ls
    × FromIndex 0 (create_led_string percent scans sorts order_rgb configs)
    × Perm (create_led_string_clone percent scans sorts order_rgb configs) ks
    × FromIndex 0 (create_led_string_clone percent scans sorts order_rgb configs)
create_led_string_example = create_led_string_lem percent scans sorts order_rgb configs

get_led_layout_grid_size_example :
    (xs : List ℕ) × (ys : List ℕ) × IsMids percent scans
      (λ c. c.hscan_minimum)
      (λ c. c.hscan_maximum)
      configs
      xs
    × IsMids percent scans (λ c. c.vscan_minimum) (λ c. c.vscan_maximum) configs ys
    × Counts xs (get_led_layout_grid_size percent scans sorts configs).0
    × Counts ys (get_led_layout_grid_size percent scans sorts configs).1
get_led_layout_grid_size_example = get_led_layout_grid_size_lem percent scans sorts configs
