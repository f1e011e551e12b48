-- ===== src/Resampler/Rows.antt =====
-- The rows of pixels that libsrc/utils/ImageResampler.cpp copies.
use hyperion_ng_beta.Prelude.{
  ℕ, zero, suc, ◌+◌, ◌*◌, ◌<◌, u32, List, [], ◌∷◌, ◌++◌, some, length, take, drop, length-append,
  length-take, length-drop, take-append-drop, append_assoc, ◌≡◌, refl, sym, ap, ◌∙◌, arith,
}
use hyperion_ng_beta.Color.{ColorRgb}
use hyperion_ng_beta.Image.{Image, pixel-append, set_pixel-append}
use hyperion_ng_beta.Resampler.{PixelFormat, sample_row, sample_rows}
use hyperion_ng_beta.Resampler.Reads.{IsFrame, color_at, read_pixel-color_at}

joined : (b d r a : List ColorRgb) → (b ++ d) ++ (r ++ a) ≡ b ++ ((d ++ r) ++ a)
joined b d r a = simp append_assoc

module _ (frame : List ℕ) (line_length : ℕ) (format : PixelFormat) where
  -- The colors of `n` pixels of a row, and of `n` rows.
  abbrev pub row_of : ℕ → ℕ → ℕ → ℕ → List ColorRgb
  row_of zero x y step = []
  row_of (suc n) x y step = color_at frame line_length format x y ∷ row_of n (x + step) y step

  abbrev pub rows_of : ℕ → ℕ → ℕ → ℕ → ℕ → ℕ → List ColorRgb
  rows_of zero y step width left step_x = []
  rows_of (suc n) y step width left step_x =
      row_of width left y step_x ++ rows_of n (y + step) step width left step_x

  length-row_of : (n x y step : ℕ) → length (row_of n x y step) ≡ n
  length-row_of zero x y step = refl
  length-row_of (suc n) x y step = ap suc (length-row_of n (x + step) y step)

  pub length-rows_of :
      (n y step width left step_x : ℕ) → length (rows_of n y step width left step_x) ≡ n * width
  length-rows_of zero y step width left step_x = omega arith
  length-rows_of (suc n) y step width left step_x = omega (
    arith,
    length-append (row_of width left y step_x) (rows_of n (y + step) step width left step_x),
    length-row_of width left y step_x,
    length-rows_of n (y + step) step width left step_x,
  )

  module _ (width height : ℕ) (f : IsFrame format frame line_length width height) where
    sample_row-row_of :
        (n xd xs yd ys step : ℕ) (image : Image) (before seg after : List ColorRgb)
        → image.pixels ≡ before ++ (seg ++ after)
        → length seg ≡ n
        → length before ≡ yd * image.width + xd
        → length before + n < u32
        → ys < height
        → ((k : ℕ) → k < n → xs + k * step < width)
        → sample_row frame line_length format n xd xs yd ys step image
          ≡ some (record image { pixels = before ++ (row_of n xs ys step ++ after) })
    unfolding sample_row
    sample_row-row_of zero xd xs yd ys step image before [] after e s l small h inside =
        ap (λ p. some (record image { pixels = p })) e
    sample_row-row_of (suc n) xd xs yd ys step image before (o ∷ seg) after e s l small h inside =
        let c = color_at frame line_length format xs ys in
        let here : xs < width = omega (arith, inside 0) in
        let read = read_pixel-color_at frame line_length format width height xs ys o f here h in
        let old = pixel-append image xd yd before (seg ++ after) o e l (omega arith) in
        let put = set_pixel-append image xd yd before (seg ++ after) o c e l (omega arith) in
        let image' : Image = record image { pixels = before ++ c ∷ (seg ++ after) } in
        let size = length-append before (c ∷ []) in
        let rest =
          sample_row-row_of n (xd + 1) (xs + step) yd ys step image' (before ++ c ∷ []) seg after
            (sym (append_assoc before (c ∷ []) (seg ++ after))) (omega arith) (omega (arith, size))
            (omega (arith, size)) h (λ k m. omega (arith, inside (suc k))) in
        rw (old, read, put)
          (rest
            ∙ ap (λ p. some (record image { pixels = p }))
                (append_assoc before (c ∷ []) (row_of n (xs + step) ys step ++ after)))
    sample_row-row_of _ xd xs yd ys step image before _ after e s l small h inside =
        absurd (omega arith)

    pub sample_rows-rows_of :
        (n yd ys step w left step_x : ℕ) (image : Image) (before seg after : List ColorRgb)
        → image.width ≡ w
        → image.pixels ≡ before ++ (seg ++ after)
        → length seg ≡ n * w
        → length before ≡ yd * w
        → length before + n * w < u32
        → ((k : ℕ) → k < n → ys + k * step < height)
        → ((k : ℕ) → k < w → left + k * step_x < width)
        → sample_rows frame line_length format n yd ys step w left step_x image
          ≡ some (record image { pixels = before ++ (rows_of n ys step w left step_x ++ after) })
    unfolding sample_rows
    sample_rows-rows_of zero yd ys step w left step_x image before [] after iw e s l small rows
          cols =
        ap (λ p. some (record image { pixels = p })) e
    sample_rows-rows_of zero yd ys step w left step_x image before (o ∷ seg) after iw e s l small
          rows cols =
        absurd (omega arith)
    sample_rows-rows_of (suc n) yd ys step w left step_x image before seg after iw e s l small rows
          cols =
        let here : ys < height = omega (arith, rows 0) in
        let first = take w seg in
        let later = drop w seg in
        let split = take-append-drop w seg in
        let size : length first ≡ w = omega (arith, length-take w seg) in
        let row =
          sample_row-row_of w 0 left yd ys step_x image before first (later ++ after)
            (e
              ∙ ap (λ p. before ++ p)
                  (ap (λ p. p ++ after) (sym split) ∙ append_assoc first later after))
            size (rw iw (omega arith)) (omega arith) here cols in
        let done = row_of w left ys step_x in
        let image' : Image = record image { pixels = before ++ (done ++ (later ++ after)) } in
        let grown = length-append before done in
        let count = length-row_of w left ys step_x in
        let rest =
          sample_rows-rows_of n (yd + 1) (ys + step) step w left step_x image' (before ++ done)
            later after iw (sym (append_assoc before done (later ++ after)))
            (omega (arith, length-drop w seg)) (omega (arith, grown, count))
            (omega (arith, grown, count)) (λ k m. omega (arith, rows (suc k))) cols in
        rw row (rest ∙ ap (λ p. some (record image { pixels = p })) (joined before done _ after))
