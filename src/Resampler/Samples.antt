-- ===== src/Resampler/Samples.antt =====
-- The picture that libsrc/utils/ImageResampler.cpp makes of a frame.
use hyperion_ng_beta.Prelude.{
  ℕ, ◌+◌, ◌*◌, ◌/◌, ◌%◌, ◌≤◌, ◌<◌, ◌==◌, ltb, u32, true, false, not, ◌&&◌, if◌then◌else◌,
  Bool-cases, List, [], ◌++◌, length, take, drop, length-take, take-append, take-append-drop, ◌≡◌,
  ◌≢◌, ◌⊎◌, inl, inr, refl, sym, ◌∙◌, subst, arith, Gives,
}
use hyperion_ng_beta.Color.{ColorRgb}
use hyperion_ng_beta.Image.{Image, resize}
use hyperion_ng_beta.Resampler.{ImageResampler, PixelFormat, process_image, right_of, bottom_of}
use hyperion_ng_beta.Resampler.Sizes.{
  samples_of, output_size-samples_of, samples_of-inside, samples_of-le,
}
use hyperion_ng_beta.Resampler.Reads.{IsFrame}
use hyperion_ng_beta.Resampler.Rows.{rows_of, length-rows_of, sample_rows-rows_of}

-- The picture has the wanted sizes, or neither its width nor its height is the wanted one.
abbrev pub IsFit : Image → ℕ → ℕ → Type 0
IsFit image w h =
    ((image.width ≡ w) × (image.height ≡ h) × (w * h ≤ length image.pixels))
    ⊎ ((image.width ≢ w) × (image.height ≢ h))

-- The resampler leaves some of the frame, and takes pixels from it.
pub record IsSetUp (r : ImageResampler) (width height : ℕ) : Type 0 where
  pub across : 0 < r.horizontal_decimation
  pub down : 0 < r.vertical_decimation
  pub columns :
      r.crop_left + right_of r.video_mode width r.crop_right + r.horizontal_decimation / 2 ≤ width
  pub rows :
      r.crop_top + bottom_of r.video_mode height r.crop_bottom + r.vertical_decimation / 2 ≤ height

ne_test : (a b : ℕ) → a ≢ b → (a == b) ≡ false
ne_test a b h = ground arith

eq_test : (a b : ℕ) → a ≡ b → (a == b) ≡ true
eq_test a b h = ground arith

-- Behind the test on the sizes the picture has the wanted ones, and room for all pixels.
sized :
    (memory : ℕ → List ColorRgb) (image : Image) (w h : ℕ)
    → ((n : ℕ) → length (memory n) ≡ n)
    → w * h < u32
    → IsFit image w h
    → let i =
        (if not (image.height == h) && not (image.width == w)
          then resize memory w h image
          else image) in
      (i.width ≡ w) × (i.height ≡ h) × (w * h ≤ length i.pixels)
unfolding resize
sized memory image w h m small (inl (a, b, c)) = rw (eq_test image.height h b) (a, b, c)
sized memory image w h m small (inr (a, b)) =
    let fits : w * h % u32 ≡ w * h = omega arith in
    rw (ne_test image.height h b, ne_test image.width w a, fits)
      (
        refl,
        refl,
        elim (Bool-cases (ltb (length image.pixels) (w * h))) [
          | inl e ↦ rw e (omega (arith, m (w * h)))
          | inr e ↦ rw e (ground arith)
        ],
      )

area_small : (w h : ℕ) → w < 65536 → h < 65536 → w * h < u32
area_small w h p q = grind arith

abbrev pub out_width : ImageResampler → ℕ → ℕ
out_width r width =
    samples_of width r.crop_left (right_of r.video_mode width r.crop_right) r.horizontal_decimation

abbrev pub out_height : ImageResampler → ℕ → ℕ
out_height r height =
    samples_of height r.crop_top (bottom_of r.video_mode height r.crop_bottom) r.vertical_decimation

-- For a frame of bytes with sides below 65536 whose lines hold its width, in a known format, of an
-- even width for YUV, decimations above 0, cropping that leaves half a decimation of the frame, a
-- memory that gives arrays of the size asked for, and a picture that has both wanted sizes or
-- neither of them: ImageResampler::processImage reads and writes nothing outside of the frame and
-- the picture, the picture gets the wanted sizes, and its pixels are, row by row, those of the
-- frame in the middle of each decimation.
pub process_image-Samples :
    (memory : ℕ → List ColorRgb) (frame : List ℕ) (width height line_length : ℕ)
    (format : PixelFormat) (image : Image) (r : ImageResampler)
    → ((n : ℕ) → length (memory n) ≡ n)
    → IsFrame format frame line_length width height
    → IsSetUp r width height
    → width < 65536
    → height < 65536
    → IsFit image (out_width r width) (out_height r height)
    → Gives
        (λ i.
          (i.width ≡ out_width r width)
          × (i.height ≡ out_height r height)
          × (take (out_width r width * out_height r height) i.pixels
              ≡ rows_of frame line_length format
                  (out_height r height)
                  (r.crop_top + r.vertical_decimation / 2)
                  r.vertical_decimation
                  (out_width r width)
                  (r.crop_left + r.horizontal_decimation / 2)
                  r.horizontal_decimation))
        (process_image memory frame width height line_length format image r)
unfolding process_image
process_image-Samples memory frame width height line_length format image r m f s sw sh fit =
    let dx = r.horizontal_decimation in
    let dy = r.vertical_decimation in
    let right = right_of r.video_mode width r.crop_right in
    let bottom = bottom_of r.video_mode height r.crop_bottom in
    let w = samples_of width r.crop_left right dx in
    let h = samples_of height r.crop_top bottom dy in
    let ew = output_size-samples_of width r.crop_left right dx s.across s.columns in
    let eh = output_size-samples_of height r.crop_top bottom dy s.down s.rows in
    let wide = samples_of-le width r.crop_left right dx s.across s.columns in
    let high = samples_of-le height r.crop_top bottom dy s.down s.rows in
    let small = area_small w h (omega (arith, wide)) (omega (arith, high)) in
    let (iw, ih, room) = sized memory image w h m small fit in
    let image' : Image =
      if not (image.height == h) && not (image.width == w)
      then resize memory w h image
      else image in
    let seg = take (w * h) image'.pixels in
    let after = drop (w * h) image'.pixels in
    let shown =
      rows_of frame line_length format h (r.crop_top + dy / 2) dy w (r.crop_left + dx / 2) dx in
    let done =
      sample_rows-rows_of frame line_length format width height f h 0 (r.crop_top + dy / 2) dy w
        (r.crop_left + dx / 2) dx image' [] seg after iw
        (sym (take-append-drop (w * h) image'.pixels))
        (omega (arith, length-take (w * h) image'.pixels)) (omega arith) (omega (arith, small))
        (λ k l. samples_of-inside height r.crop_top bottom dy k s.down s.rows l)
        (λ k l. samples_of-inside width r.crop_left right dx k s.across s.columns l) in
    let size =
      length-rows_of frame line_length format h (r.crop_top + dy / 2) dy w (r.crop_left + dx / 2)
        dx in
    let same_w : w % u32 ≡ w = omega (arith, wide) in
    let same_h : h % u32 ≡ h = omega (arith, high) in
    (
      record image' { pixels = shown ++ after },
      rw
          (
            ew,
            eh,
            same_w,
            same_h,
            ne_test dx 0 (omega (arith, s.across)),
            ne_test dy 0 (omega (arith, s.down)),
          )
          done,
      (
        iw,
        ih,
        subst (λ k. take k (shown ++ after) ≡ shown) (size ∙ omega arith) (take-append shown after),
      ),
    )
