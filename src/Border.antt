-- ===== src/Border.antt =====
-- include/blackborder/BlackBorderDetector.h and libsrc/blackborder/BlackBorderDetector.cpp: the black
-- border of one picture. Sizes of a picture are below 2^31, so that `int` arithmetic on them is exact.
use hyperion_ng_beta.Prelude.{
  ℕ, zero, suc, ℤ, pos, negsuc, ◌+◌, ◌-◌, ◌*◌, ◌/◌, Option, none, some, ◌>>=◌, Bool, true, false,
  not, ◌&&◌, ◌||◌, ltb, leb, ltb_ℤ, eqb_ℤ, if◌then◌else◌, ◌≡◌,
}
use Prim.Native.Nat.{min, max}
use hyperion_ng_beta.Color.{ColorRgb}
use hyperion_ng_beta.Image.{Image, pixel}
pub mod Scan
pub mod Detect
pub mod Processor
pub mod Tests

pub record BlackBorder : Type 0 where
  pub unknown : Bool
  pub horizontal_size : ℤ
  pub vertical_size : ℤ

-- `operator==`.
unfoldable pub border_eq : BlackBorder → BlackBorder → Bool
border_eq a b =
    if a.unknown
    then b.unknown
    else not b.unknown
      && (eqb_ℤ a.horizontal_size b.horizontal_size && eqb_ℤ a.vertical_size b.vertical_size)

-- `rgb_threshold` is `int(std::ceil(threshold * 255))`.
unfoldable pub calculate_threshold : ℤ → ℕ
calculate_threshold (negsuc n) = 0
calculate_threshold (pos n) = if ltb 255 n then 255 else n

unfoldable pub is_black : ℕ → ColorRgb → Bool
is_black threshold c = ltb c.red threshold && (ltb c.green threshold && ltb c.blue threshold)

abbrev pub not_found : ℤ
not_found = negsuc 0

-- A search loop: from `x` on, `n` rounds, for the first index at which the test holds.
unfoldable pub first_index : (ℕ → Option Bool) → ℕ → ℕ → Option ℤ
first_index test zero x = some not_found
first_index test (suc n) x = do
  found ← test x
  elim found [ true ↦ some (pos x) | false ↦ first_index test n (x + 1) ]

unfoldable pub make_border : ℤ → ℤ → BlackBorder
make_border x y = record {
  unknown = eqb_ℤ x not_found || eqb_ℤ y not_found;
  horizontal_size = y;
  vertical_size = x;
}

module _ (threshold : ℕ) (i : Image) where
  -- The pixel is not black.
  unfoldable pub lit : ℕ → ℕ → Option Bool
  lit x y = do c ← pixel i x y; some (not (is_black threshold c))

  unfoldable pub any_lit : Option Bool → Option Bool → Option Bool
  any_lit a b = do p ← a; q ← b; some (p || q)

  -- The three pixels that decide whether column `x` belongs to the border.
  unfoldable pub column_lit : ℕ → Option Bool
  column_lit x =
      any_lit (lit (i.width - 1 - x) (i.height / 2))
        (any_lit (lit x (i.height / 3)) (lit x (i.height / 3 * 2)))

  unfoldable pub row_lit : ℕ → Option Bool
  row_lit y =
      any_lit (lit (i.width / 2) (i.height - 1 - y))
        (any_lit (lit (i.width / 3) y) (lit (i.width / 3 * 2) y))

  unfoldable pub process : Option BlackBorder
  process = do
    x ← first_index column_lit (i.width / 3) 0
    y ← first_index row_lit (i.height / 3) 0
    some (make_border x y)

  -- The diagonal of the top left third.
  unfoldable pub diagonal_lit : ℕ → Option Bool
  diagonal_lit k = lit (min k (i.width / 3)) (min k (i.height / 3))

  -- `for (; x > 0; --x)` until the pixel left of `x` is black.
  unfoldable pub expand_left : ℕ → ℕ → Option ℕ
  expand_left zero y = some 0
  expand_left (suc x) y = do l ← lit x y; elim l [ true ↦ expand_left x y | false ↦ some (suc x) ]

  unfoldable pub expand_top : ℕ → ℕ → Option ℕ
  expand_top x zero = some 0
  expand_top x (suc y) = do l ← lit x y; elim l [ true ↦ expand_top x y | false ↦ some (suc y) ]

  unfoldable pub classic_from : ℤ → Option BlackBorder
  classic_from (negsuc n) = some (make_border not_found not_found)
  classic_from (pos k) = do
    x ← expand_left (min k (i.width / 3)) (min k (i.height / 3))
    y ← expand_top x (min k (i.height / 3))
    some (make_border (pos x) (pos y))

  unfoldable pub process_classic : Option BlackBorder
  process_classic = do
    k ← first_index diagonal_lit (max (i.width / 3) (i.height / 3)) 0
    classic_from k

  -- Both ends of row `y` and of its mirror image, at column `x`.
  unfoldable pub osd_row_lit : ℕ → ℕ → Option Bool
  osd_row_lit x y = any_lit (lit x y) (
      any_lit (lit x (i.height - 1 - y))
        (any_lit (lit (i.width - 1 - x) y) (lit (i.width - 1 - x) (i.height - 1 - y))))

  -- The value of the loop variable after the search: the limit, if nothing was found.
  unfoldable pub loop_end : ℤ → ℕ → ℕ
  loop_end (pos x) limit = x
  loop_end (negsuc n) limit = limit

  unfoldable pub process_osd : Option BlackBorder
  process_osd = do
    x ← first_index column_lit (i.width / 3) 0
    y ← first_index (osd_row_lit (loop_end x (i.width / 3))) (i.height / 3) 0
    some (make_border x y)
