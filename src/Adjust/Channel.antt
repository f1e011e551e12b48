-- ===== src/Adjust/Channel.antt =====
-- libsrc/utils/RgbChannelAdjustment.cpp: one linear table for each channel.
use Prim.Native.Nat.{min}
use hyperion_ng_beta.Prelude.{
  ℕ, zero, suc, ◌+◌, ◌*◌, ◌/◌, ◌<◌, ◌≤◌, ◌≡◌, List, [], ◌∷◌, get_or, arith,
}

-- f 0, …, f (n - 1): an array that a counting loop fills.
pub table_from : ℕ → ℕ → (ℕ → ℕ) → List ℕ
table_from k zero f = []
table_from k (suc n) f = f k ∷ table_from (k + 1) n f

get_or-table_from : (k n i : ℕ) (f : ℕ → ℕ) → i < n → get_or (table_from k n f) i 0 ≡ f (k + i)
unfolding table_from
get_or-table_from k zero i f h = elim h [ ]
get_or-table_from k (suc n) zero f h = let e : k ≡ k + 0 = omega arith in rw (← e)
get_or-table_from k (suc n) (suc i) f h =
    let e : k + suc i ≡ k + 1 + i = omega arith in
    rw e (get_or-table_from (k + 1) n i f (omega arith))

pub table : ℕ → (ℕ → ℕ) → List ℕ
table n f = table_from 0 n f

pub get_or-table : (n i : ℕ) (f : ℕ → ℕ) → i < n → get_or (table n f) i 0 ≡ f i
unfolding table
get_or-table n i f h = let e : 0 + i ≡ i = omega arith in rw e at (get_or-table_from 0 n i f h)

pub record RgbChannelAdjustment : Type 0 where
  pub adjust_r : ℕ
  pub adjust_g : ℕ
  pub adjust_b : ℕ
  pub mapping_r : List ℕ
  pub mapping_g : List ℕ
  pub mapping_b : List ℕ

-- min((idx * adjust) / UINT8_MAX, UINT8_MAX).
pub linear : ℕ → ℕ → ℕ
linear adjust idx = min (idx * adjust / 255) 255

-- `setAdjustment` sets the three values and fills the three tables.
unfoldable pub set_adjustment : ℕ → ℕ → ℕ → RgbChannelAdjustment
set_adjustment r g b = record {
  adjust_r = r;
  adjust_g = g;
  adjust_b = b;
  mapping_r = table 256 (linear r);
  mapping_g = table 256 (linear g);
  mapping_b = table 256 (linear b);
}

unfoldable pub set_adjustment_r : ℕ → RgbChannelAdjustment → RgbChannelAdjustment
set_adjustment_r r a = set_adjustment r a.adjust_g a.adjust_b

unfoldable pub set_adjustment_g : ℕ → RgbChannelAdjustment → RgbChannelAdjustment
set_adjustment_g g a = set_adjustment a.adjust_r g a.adjust_b

unfoldable pub set_adjustment_b : ℕ → RgbChannelAdjustment → RgbChannelAdjustment
set_adjustment_b b a = set_adjustment a.adjust_r a.adjust_g b

unfoldable pub get_adjustment_r : RgbChannelAdjustment → ℕ → ℕ
get_adjustment_r a input = get_or a.mapping_r input 0

unfoldable pub get_adjustment_g : RgbChannelAdjustment → ℕ → ℕ
get_adjustment_g a input = get_or a.mapping_g input 0

unfoldable pub get_adjustment_b : RgbChannelAdjustment → ℕ → ℕ
get_adjustment_b a input = get_or a.mapping_b input 0

-- The tables belong to the adjustment: they were filled by `setAdjustment` from byte values.
pub record IsFilled (a : RgbChannelAdjustment) : Type 0 where
  pub is_r : (i : ℕ) → i < 256 → get_adjustment_r a i ≡ linear a.adjust_r i
  pub is_g : (i : ℕ) → i < 256 → get_adjustment_g a i ≡ linear a.adjust_g i
  pub is_b : (i : ℕ) → i < 256 → get_adjustment_b a i ≡ linear a.adjust_b i
  pub bytes : (a.adjust_r < 256) × (a.adjust_g < 256) × (a.adjust_b < 256)

-- Every way to set an adjustment fills its tables: an entry is the input scaled by value / 255.
pub set_adjustment-IsFilled :
    (r g b : ℕ) → r < 256 → g < 256 → b < 256 → IsFilled (set_adjustment r g b)
unfolding set_adjustment get_adjustment_r get_adjustment_g get_adjustment_b
set_adjustment-IsFilled r g b hr hg hb = record {
  is_r = λ i h. get_or-table 256 i (linear r) h;
  is_g = λ i h. get_or-table 256 i (linear g) h;
  is_b = λ i h. get_or-table 256 i (linear b) h;
  bytes = (hr, hg, hb);
}

-- An entry is no larger than its input.
pub linear-le : (adjust i : ℕ) → adjust < 256 → linear adjust i ≤ i
unfolding linear
linear-le adjust i h = let m : i * adjust ≤ i * 255 = grind arith in omega (arith, m)

-- At full input the entry is the adjustment itself, and a full adjustment changes nothing.
pub linear_full : (adjust : ℕ) → adjust < 256 → linear adjust 255 ≡ adjust
unfolding linear
linear_full adjust h = omega arith

pub linear_identity : (i : ℕ) → i < 256 → linear 255 i ≡ i
unfolding linear
linear_identity i h = omega arith

pub linear_zero : (i : ℕ) → linear 0 i ≡ 0
unfolding linear
linear_zero i = omega arith
