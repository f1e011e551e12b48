-- ===== src/Image.antt =====
-- include/utils/Image.h: a picture of `width` times `height` pixels, row by row. The array has one
-- more element than the picture; that element is never read here, and the model leaves it out.
use hyperion_ng_beta.Prelude.{
  ℕ, ◌+◌, ◌*◌, ◌%◌, ◌<◌, ◌≡◌, List, Option, length, get_elem?, replicate, u32, some, arith,
  get_elem?-some, ltb, if◌then◌else◌, none, set, set-append, ◌++◌, ◌∷◌, length-append, lt→ltb, ap,
  get_elem?-append,
}
use hyperion_ng_beta.Color.{ColorRgb}

pub record Image : Type 0 where
  pub width : ℕ
  pub height : ℕ
  pub pixels : List ColorRgb

-- The sizes fit: as many pixels as the sizes say, a number that fits into an `unsigned`.
pub record IsImage (i : Image) : Type 0 where
  pub full : length i.pixels ≡ i.width * i.height
  pub small : i.width * i.height < u32

unfoldable pub new_image : ℕ → ℕ → ColorRgb → Image
new_image width height background = record {
  width = width;
  height = height;
  pixels = replicate (width * height) background;
}

pub to_index : Image → ℕ → ℕ → ℕ
to_index i x y = (y * i.width + x) % u32

-- `operator()`; `none` is a read outside of the picture.
unfoldable pub pixel : Image → ℕ → ℕ → Option ColorRgb
unfolding to_index
pixel i x y = get_elem? i.pixels (to_index i x y)

-- `memptr()[offset]`.
unfoldable pub pixel_at : Image → ℕ → Option ColorRgb
pixel_at i offset = get_elem? i.pixels offset

-- `operator()` on the left of an assignment; `none` is a write outside of the array.
unfoldable pub set_pixel : Image → ℕ → ℕ → ColorRgb → Option Image
unfolding to_index
set_pixel i x y c =
    if ltb (to_index i x y) (length i.pixels)
    then some (record i { pixels = set i.pixels (to_index i x y) c })
    else none

-- A larger array is a new one, with what the memory holds; a smaller picture keeps its array.
unfoldable pub resize : (ℕ → List ColorRgb) → ℕ → ℕ → Image → Image
resize memory width height i = record {
  width = width;
  height = height;
  pixels =
      if ltb (length i.pixels) (width * height % u32)
      then memory (width * height % u32)
      else i.pixels;
}

-- A write behind the pixels `before`, which are the rows above and the pixels to the left.
pub set_pixel-append :
    (i : Image) (x y : ℕ) (before after : List ColorRgb) (old c : ColorRgb)
    → i.pixels ≡ before ++ old ∷ after
    → length before ≡ y * i.width + x
    → length before < u32
    → set_pixel i x y c ≡ some (record i { pixels = before ++ c ∷ after })
unfolding set_pixel
set_pixel-append i x y before after old c e l small =
    let at : to_index i x y ≡ length before = unfold to_index in (omega arith) in
    let inside =
      lt→ltb (length before) (length (before ++ old ∷ after))
        (omega (arith, length-append before (old ∷ after))) in
    rw (at, e, inside) (ap (λ p. some (record i { pixels = p })) (set-append before after old c))

-- The pixel behind some pixels.
pub pixel-append :
    (i : Image) (x y : ℕ) (before after : List ColorRgb) (c : ColorRgb)
    → i.pixels ≡ before ++ c ∷ after
    → length before ≡ y * i.width + x
    → length before < u32
    → pixel i x y ≡ some c
unfolding pixel
pixel-append i x y before after c e l small =
    let at : to_index i x y ≡ length before = unfold to_index in (omega arith) in
    rw (at, e) (get_elem?-append before after c)

pub index_in_picture :
    (i : Image) (x y : ℕ) → x < i.width → y < i.height → y * i.width + x < i.width * i.height
index_in_picture i x y p q = grind arith

-- A pixel at coordinates inside of the picture can be read.
pub pixel-some :
    (i : Image) (x y : ℕ)
    → IsImage i
    → x < i.width
    → y < i.height
    → (c : ColorRgb) × (pixel i x y ≡ some c)
unfolding pixel
pixel-some i x y v p q =
    get_elem?-some i.pixels (to_index i x y)
      (unfold to_index in (omega (arith, v.full, v.small, index_in_picture i x y p q)))
