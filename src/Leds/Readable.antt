-- ===== src/Leds/Readable.antt =====
-- The sums and the means of ImageToLedsMap.h read no pixel outside of the picture.
use hyperion_ng_beta.Prelude.{
  ℕ, zero, suc, ◌+◌, ◌*◌, ◌%◌, ◌<◌, ◌≤◌, ◌≡◌, ◌≢◌, refl, List, [], ◌∷◌, All, arith, u32, length,
  get_elem?-some, ◌==◌, Gives, Gives-bind, Gives-if, length-replicate, ap,
}
use hyperion_ng_beta.Color.{black}
use hyperion_ng_beta.Image.{Image, pixel_at}
use hyperion_ng_beta.Border.Detect.{IsPicture}
use hyperion_ng_beta.Leds.ImageToLedsMap.{
  ImageToLedsMap, Sums, no_sums, sum_colors, calc_mean_color, mean_colors, offsets_from,
  calc_uni_color, get_uni_led_color, add_pixel,
}

-- Offsets inside of a picture can be read.
pub sum_colors-Gives :
    (modulus : ℕ) (i : Image) (os : List ℕ) (s : Sums)
    → All (λ o. o < length i.pixels) os
    → Gives (λ _. Unit {0}) (sum_colors modulus i os s)
unfolding sum_colors pixel_at
sum_colors-Gives modulus i [] s h = (s, refl, tt)
sum_colors-Gives modulus i (o ∷ os) s h =
    let (c, e) = get_elem?-some i.pixels o h.0 in
    rw e (sum_colors-Gives modulus i os (add_pixel modulus s c) h.1)

pub calc_mean_color-Gives :
    (modulus : ℕ) (i : Image) (os : List ℕ)
    → All (λ o. o < length i.pixels) os
    → Gives (λ _. Unit {0}) (calc_mean_color modulus i os)
unfolding calc_mean_color
calc_mean_color-Gives modulus i [] h = (black, refl, tt)
calc_mean_color-Gives modulus i (o ∷ os) h =
    Gives-bind (λ _. Unit {0}) (λ _. Unit {0}) (sum_colors modulus i (o ∷ os) no_sums) _
      (sum_colors-Gives modulus i (o ∷ os) no_sums h) (λ s _. (_, refl, tt))

pub mean_colors-Gives :
    (modulus : ℕ) (i : Image) (oss : List (List ℕ))
    → All (λ os. All (λ o. o < length i.pixels) os) oss
    → Gives (λ cs. length cs ≡ length oss) (mean_colors modulus i oss)
unfolding mean_colors
mean_colors-Gives modulus i [] h = ([], refl, refl)
mean_colors-Gives modulus i (os ∷ oss) h =
    let (c, e, _) = calc_mean_color-Gives modulus i os h.0 in
    let (cs, e', l) = mean_colors-Gives modulus i oss h.1 in (c ∷ cs, rw (e, e'), ap suc l)

offsets_from-inside : (x n m : ℕ) → x + n ≤ m → All (λ o. o < m) (offsets_from x n)
unfolding offsets_from
offsets_from-inside x zero m h = tt
offsets_from-inside x (suc n) m h = (omega arith, offsets_from-inside (x + 1) n m (omega arith))

not_zero : (w h : ℕ) → 0 < w → 0 < h → w * h ≢ 0
not_zero w h p q e = grind arith

pub uni-Gives :
    (modulus : ℕ) (m : ImageToLedsMap) (i : Image)
    → IsPicture i
    → Gives (λ cs. length cs ≡ length m.colors_map) (get_uni_led_color modulus m i)
unfolding get_uni_led_color calc_uni_color
uni-Gives modulus m i (v, w, h) =
    let size = i.width * i.height % u32 in
    let small : size ≡ i.width * i.height = omega (arith, v.small) in
    Gives-bind (λ _. Unit {0}) _ (calc_uni_color modulus i) _
      (Gives-if (λ _. Unit {0}) (size == 0) _ _
        (λ e. absurd (not_zero i.width i.height w h (ground (arith, small))))
        (λ _.
          Gives-bind (λ _. Unit {0}) (λ _. Unit {0})
            (sum_colors modulus i (offsets_from 0 size) no_sums) _
            (sum_colors-Gives modulus i (offsets_from 0 size) no_sums
              (offsets_from-inside 0 size (length i.pixels) (omega (arith, small, v.full))))
            (λ s _. (_, refl, tt))))
      (λ c _. (_, refl, length-replicate (length m.colors_map) c))
