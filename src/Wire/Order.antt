-- ===== src/Wire/Order.antt =====
-- The byte order of the led colors (libsrc/hyperion/Hyperion.cpp, include/hyperion/LedString.h).
use Prim.Native.String.{String, [] as empty, ◌∷◌ as ◌then_letter◌}
use Prim.Native.Char.{Char, code}
use hyperion_ng_beta.Prelude.{ℕ, ◌≡◌, refl, ◌==◌, if◌then◌else◌, List, [], ◌∷◌}
use hyperion_ng_beta.Color.{ColorRgb}
use hyperion_ng_beta.Leds.Led.{
  ColorOrder, order_rgb, order_bgr, order_rbg, order_grb, order_gbr, order_brg,
  color_order_to_string,
}
use hyperion_ng_beta.Wire.{reorder}

-- The channel that a letter names: r, g and, for any other letter, b.
abbrev pub named : Char → ColorRgb → ℕ
named letter c =
    if code letter == 114 then c.red else if code letter == 103 then c.green else c.blue

abbrev pub named_all : String → ColorRgb → List ℕ
named_all empty c = []
named_all (letter then_letter s) c = named letter c ∷ named_all s c

-- The bytes sent for a led, in the order of the wire, are the channels that the letters of the
-- name of its color order name.
pub reorder-letters :
    (o : ColorOrder) (c : ColorRgb)
    → (reorder o c).red ∷ (reorder o c).green ∷ (reorder o c).blue ∷ []
      ≡ named_all (color_order_to_string o) c
unfolding reorder color_order_to_string
reorder-letters order_rgb c = refl
reorder-letters order_rbg c = refl
reorder-letters order_grb c = refl
reorder-letters order_brg c = refl
reorder-letters order_gbr c = refl
reorder-letters order_bgr c = refl
