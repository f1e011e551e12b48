-- ===== src/Border/Detect.antt =====
-- The three detection modes of BlackBorderDetector.h read only pixels of the picture, and find the
-- border that their test lines show.
use Prim.Native.Nat.{min, max}
use hyperion_ng_beta.Prelude.{
  ℕ, zero, suc, ℤ, pos, ◌/◌, ◌≤◌, ◌<◌, ◌≡◌, refl, ◌⊎◌, inl, inr, Option, some, Bool, true, false,
  not, ◌||◌, arith, eqb_ℤ,
}
use hyperion_ng_beta.Image.{Image, IsImage, pixel-some}
use hyperion_ng_beta.Border.{
  BlackBorder, is_black, not_found, first_index, make_border, lit, any_lit, column_lit, row_lit,
  process, diagonal_lit, expand_left, expand_top, classic_from, process_classic, osd_row_lit,
  loop_end, process_osd,
}
use hyperion_ng_beta.Border.Scan.{IsFirst, Total, first_index-IsFirst}

-- A test that can be made.
abbrev pub IsDefined : Option Bool → Type 0
IsDefined o = (b : Bool) × (o ≡ some b)

any_lit-IsDefined :
    (th : ℕ) (i : Image) (a b : Option Bool)
    → IsDefined a
    → IsDefined b
    → IsDefined (any_lit th i a b)
unfolding any_lit
any_lit-IsDefined th i a b (p, e) (q, f) = (p || q, rw (e, f))

-- A picture with at least one pixel.
abbrev pub IsPicture : Image → Type 0
IsPicture i = IsImage i × (0 < i.width) × (0 < i.height)

module _ (th : ℕ) (i : Image) where
  lit-IsDefined : (x y : ℕ) → IsImage i → x < i.width → y < i.height → IsDefined (lit th i x y)
  unfolding lit
  lit-IsDefined x y v p q = let (c, e) = pixel-some i x y v p q in (not (is_black th c), rw e)

  column_lit-Total : IsPicture i → (hi : ℕ) → hi ≤ i.width / 3 → Total (column_lit th i) 0 hi
  unfolding column_lit
  column_lit-Total (v, w, h) hi le k p q =
      any_lit-IsDefined th i _ _ (lit-IsDefined _ _ v (omega arith) (omega arith)) (
        any_lit-IsDefined th i _ _ (lit-IsDefined _ _ v (omega arith) (omega arith))
          (lit-IsDefined _ _ v (omega arith) (omega arith)))

  row_lit-Total : IsPicture i → Total (row_lit th i) 0 (i.height / 3)
  unfolding row_lit
  row_lit-Total (v, w, h) k p q =
      any_lit-IsDefined th i _ _ (lit-IsDefined _ _ v (omega arith) (omega arith)) (
        any_lit-IsDefined th i _ _ (lit-IsDefined _ _ v (omega arith) (omega arith))
          (lit-IsDefined _ _ v (omega arith) (omega arith)))

  osd_row_lit-Total :
      IsPicture i → (x : ℕ) → x < i.width → Total (osd_row_lit th i x) 0 (i.height / 3)
  unfolding osd_row_lit
  osd_row_lit-Total (v, w, h) x l k p q =
      any_lit-IsDefined th i _ _ (lit-IsDefined _ _ v (omega arith) (omega arith)) (
        any_lit-IsDefined th i _ _ (lit-IsDefined _ _ v (omega arith) (omega arith)) (
          any_lit-IsDefined th i _ _ (lit-IsDefined _ _ v (omega arith) (omega arith))
            (lit-IsDefined _ _ v (omega arith) (omega arith))))

-- The border that the first lit column and row give.
abbrev pub Finds : (ℕ → Option Bool) → (ℤ → ℕ → Option Bool) → Image → BlackBorder → Type 0
Finds columns rows i b =
    IsFirst columns 0 (i.width / 3) b.vertical_size
    × IsFirst (rows b.vertical_size) 0 (i.height / 3) b.horizontal_size
    × (b.unknown ≡ (eqb_ℤ b.vertical_size not_found || eqb_ℤ b.horizontal_size not_found))

-- The default detection mode reads no pixel outside of a picture. Its vertical size is the first
-- column of the left third in which one of the three test pixels is not black, its horizontal size
-- the first such row of the top third, and the border is unknown if there is no such column or no
-- such row.
pub process-Finds :
    (th : ℕ) (i : Image)
    → IsPicture i
    → (b : BlackBorder) × (process th i ≡ some b) × Finds (column_lit th i) (λ x. row_lit th i) i b
unfolding process make_border
process-Finds th i v =
    let (x, e, f) =
      first_index-IsFirst (column_lit th i) (i.width / 3) 0 (i.width / 3) (omega arith)
        (column_lit-Total th i v (i.width / 3) (omega arith)) in
    let (y, e', f') =
      first_index-IsFirst (row_lit th i) (i.height / 3) 0 (i.height / 3) (omega arith)
        (row_lit-Total th i v) in
    (make_border x y, rw (e, e'), (f, f', refl))

loop_end-lt :
    (th : ℕ) (i : Image) (x : ℤ) (columns : ℕ → Option Bool)
    → 0 < i.width
    → IsFirst columns 0 (i.width / 3) x
    → loop_end th i x (i.width / 3) < i.width
unfolding loop_end
loop_end-lt th i x columns w (inl (e, f)) = rw e (omega arith)
loop_end-lt th i x columns w (inr (k, e, l, u, t, f)) = rw e (omega arith)

pub process_osd-Finds :
    (th : ℕ) (i : Image)
    → IsPicture i
    → (b : BlackBorder) × (process_osd th i ≡ some b)
      × Finds (column_lit th i) (λ x. osd_row_lit th i (loop_end th i x (i.width / 3))) i b
unfolding process_osd make_border
process_osd-Finds th i v =
    let (x, e, f) =
      first_index-IsFirst (column_lit th i) (i.width / 3) 0 (i.width / 3) (omega arith)
        (column_lit-Total th i v (i.width / 3) (omega arith)) in
    let (y, e', f') =
      first_index-IsFirst (osd_row_lit th i (loop_end th i x (i.width / 3))) (i.height / 3) 0
        (i.height / 3) (omega arith)
        (osd_row_lit-Total th i v _ (loop_end-lt th i x (column_lit th i) v.1 f)) in
    (make_border x y, rw (e, e'), (f, f', refl))

-- From `n` down to `r` the test holds, and below `r` it does not, or `r` is 0.
abbrev pub RunsDown : (ℕ → Option Bool) → ℕ → ℕ → Type 0
RunsDown test n r =
    (r ≤ n)
    × ((k : ℕ) → r ≤ k → k < n → test k ≡ some true)
    × ((r ≡ 0) ⊎ ((k : ℕ) × (r ≡ suc k) × (test k ≡ some false)))

extend_RunsDown :
    (test : ℕ → Option Bool) (n r : ℕ)
    → test n ≡ some true
    → RunsDown test n r
    → RunsDown test (suc n) r
extend_RunsDown test n r e (l, all, stop) =
    (omega arith, (λ k p q. elim (below k q) [ inl h ↦ all k p h | inr h ↦ rw h e ]), stop)
  where
    below : (k : ℕ) → k < suc n → (k < n) ⊎ (k ≡ n)
    below k q = omega arith

module _ (th : ℕ) (i : Image) where
  diagonal_lit-Total : IsPicture i → Total (diagonal_lit th i) 0 (max (i.width / 3) (i.height / 3))
  unfolding diagonal_lit
  diagonal_lit-Total (v, w, h) k p q = lit-IsDefined th i _ _ v (omega arith) (omega arith)

  expand_left-RunsDown :
      (x y : ℕ)
      → IsImage i
      → x < i.width
      → y < i.height
      → (r : ℕ) × (expand_left th i x y ≡ some r) × RunsDown (λ k. lit th i k y) x r
  unfolding expand_left
  expand_left-RunsDown zero y v p q =
      (0, refl, (omega arith, (λ k a b. absurd (omega arith)), inl refl))
  expand_left-RunsDown (suc x) y v p q =
      let (b, e) = lit-IsDefined th i x y v (omega arith) q in
      split b e (expand_left-RunsDown x y v (omega arith) q)
    where
      split :
          (b : Bool)
          → lit th i x y ≡ some b
          → ((r : ℕ) × (expand_left th i x y ≡ some r) × RunsDown (λ k. lit th i k y) x r)
          → (r : ℕ) × (expand_left th i (suc x) y ≡ some r) × RunsDown (λ k. lit th i k y) (suc x) r
      split true e (r, f, d) = (r, rw e f, extend_RunsDown (λ k. lit th i k y) x r e d)
      split false e ih =
          (suc x, rw e, (omega arith, (λ k a b. absurd (omega arith)), inr (x, refl, e)))

  expand_top-RunsDown :
      (x y : ℕ)
      → IsImage i
      → x < i.width
      → y < i.height
      → (r : ℕ) × (expand_top th i x y ≡ some r) × RunsDown (λ k. lit th i x k) y r
  unfolding expand_top
  expand_top-RunsDown x zero v p q =
      (0, refl, (omega arith, (λ k a b. absurd (omega arith)), inl refl))
  expand_top-RunsDown x (suc y) v p q =
      let (b, e) = lit-IsDefined th i x y v p (omega arith) in
      split b e (expand_top-RunsDown x y v p (omega arith))
    where
      split :
          (b : Bool)
          → lit th i x y ≡ some b
          → ((r : ℕ) × (expand_top th i x y ≡ some r) × RunsDown (λ k. lit th i x k) y r)
          → (r : ℕ) × (expand_top th i x (suc y) ≡ some r) × RunsDown (λ k. lit th i x k) (suc y) r
      split true e (r, f, d) = (r, rw e f, extend_RunsDown (λ k. lit th i x k) y r e d)
      split false e ih =
          (suc y, rw e, (omega arith, (λ k a b. absurd (omega arith)), inr (y, refl, e)))

-- What the classic mode finds: nothing if the whole diagonal is black; otherwise, from the first pixel
-- of the diagonal that is not black, as far left and then as far up as the pixels are not black.
abbrev pub ClassicBorder : ℕ → Image → BlackBorder → Type 0
ClassicBorder th i b =
    (((k : ℕ) → 0 ≤ k → k < max (i.width / 3) (i.height / 3) → diagonal_lit th i k ≡ some false)
      × (b ≡ make_border not_found not_found))
    ⊎ ((k x y : ℕ) × IsFirst (diagonal_lit th i) 0 (max (i.width / 3) (i.height / 3)) (pos k)
        × RunsDown (λ c. lit th i c (min k (i.height / 3))) (min k (i.width / 3)) x
        × RunsDown (λ r. lit th i x r) (min k (i.height / 3)) y
        × (b ≡ make_border (pos x) (pos y)))

-- The classic detection mode reads no pixel outside of a picture. It goes along the diagonal of
-- the top left third to the first pixel that is not black, from there to the left while the pixels
-- are not black, then up; if the whole diagonal is black, the border is unknown.
pub process_classic-ClassicBorder :
    (th : ℕ) (i : Image)
    → IsPicture i
    → (b : BlackBorder) × (process_classic th i ≡ some b) × ClassicBorder th i b
unfolding process_classic classic_from
process_classic-ClassicBorder th i v =
    let (r, e, f) =
      first_index-IsFirst (diagonal_lit th i) (max (i.width / 3) (i.height / 3)) 0 _ (omega arith)
        (diagonal_lit-Total th i v) in
    from r e f
  where
    from :
        (r : ℤ)
        → first_index (diagonal_lit th i) (max (i.width / 3) (i.height / 3)) 0 ≡ some r
        → IsFirst (diagonal_lit th i) 0 (max (i.width / 3) (i.height / 3)) r
        → (b : BlackBorder) × (process_classic th i ≡ some b) × ClassicBorder th i b
    from r e (inl (g, f)) = (make_border not_found not_found, rw (e, g), inl (f, refl))
    from r e (inr (k, g, l, u, t, d)) =
        let (x, ex, fx) =
          expand_left-RunsDown th i (min k (i.width / 3)) (min k (i.height / 3)) v.0
            (inside i.width v.1) (inside i.height v.2) in
        let (y, ey, fy) =
          expand_top-RunsDown th i x (min k (i.height / 3)) v.0
            (omega (arith, fx.0, inside i.width v.1)) (inside i.height v.2) in
        (
          make_border (pos x) (pos y),
          rw (e, g, ex, ey),
          inr (k, x, y, inr (k, refl, l, u, t, d), fx, fy, refl),
        )
      where
        inside : (n : ℕ) → 0 < n → min k (n / 3) < n
        inside n h = omega arith
