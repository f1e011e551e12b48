-- ===== src/Leds/BorderFits.antt =====
-- How large the borders are that BlackBorderProcessor.h detects, its blur included.
use hyperion_ng_beta.Prelude.{
  ℕ, zero, suc, ℤ, pos, ◌+◌, ◌/◌, ◌<◌, ◌≤◌, ◌≡◌, refl, ◌⊎◌, inl, inr, Bool, true, not, Option,
  arith, eqb_ℤ_refl, Gives, Gives-bind, Gives-if, to_int32,
}
use hyperion_ng_beta.Image.{Image}
use hyperion_ng_beta.Border.{
  BlackBorder, make_border, not_found, column_lit, row_lit, osd_row_lit, loop_end,
}
use hyperion_ng_beta.Border.Detect.{
  IsPicture, Finds, ClassicBorder, process-Finds, process_osd-Finds, process_classic-ClassicBorder,
}
use hyperion_ng_beta.Border.Processor.{
  BlackBorderProcessor, update_border, check_change, process_image, detect, blur,
}

-- The border is unknown or small enough: a third of the picture and a margin `c` on each side.
abbrev pub BorderFits : ℕ → Image → BlackBorder → Type 0
BorderFits c i b =
    (b.unknown ≡ true)
    ⊎ ((x y : ℕ) × (b.vertical_size ≡ pos x)
        × (x ≤ i.width / 3 + c)
        × (b.horizontal_size ≡ pos y)
        × (y ≤ i.height / 3 + c))

Finds-BorderFits :
    (columns : ℕ → Option Bool) (rows : ℤ → ℕ → Option Bool) (i : Image) (b : BlackBorder)
    → Finds columns rows i b
    → BorderFits 0 i b
Finds-BorderFits columns rows i b (inl (e, f), r, u) = inl (ground (arith, eqb_ℤ_refl not_found))
Finds-BorderFits columns rows i b (inr (x, ex, lx, ux, tx, fx), inl (e, f), u) =
    inl (ground (arith, eqb_ℤ_refl not_found))
Finds-BorderFits columns rows i b (inr (x, ex, lx, ux, tx, fx), inr (y, ey, ly, uy, ty, fy), u) =
    inr (x, y, ex, omega arith, ey, omega arith)

ClassicBorder-BorderFits :
    (th : ℕ) (i : Image) (b : BlackBorder) → ClassicBorder th i b → BorderFits 0 i b
unfolding make_border
ClassicBorder-BorderFits th i b (inl (f, e)) = inl (ground (arith, eqb_ℤ_refl not_found))
ClassicBorder-BorderFits th i b (inr (k, x, y, first, left, top, e)) =
    inr (x, y, ground arith, omega (arith, left.0), ground arith, omega (arith, top.0))

-- One of the three detection modes.
abbrev pub HasMode : BlackBorderProcessor → Type 0
HasMode s =
    (s.detection_mode ≡ "default") ⊎ (s.detection_mode ≡ "classic") ⊎ (s.detection_mode ≡ "osd")

detect-BorderFits :
    (uninit : BlackBorder) (s : BlackBorderProcessor) (i : Image)
    → IsPicture i
    → HasMode s
    → Gives (BorderFits 0 i) (detect uninit s i)
unfolding detect
detect-BorderFits uninit s i p (inl m) =
    let (b, e, f) = process-Finds s.threshold i p in
    (b, rw m e, Finds-BorderFits (column_lit s.threshold i) (λ x. row_lit s.threshold i) i b f)
detect-BorderFits uninit s i p (inr (inl m)) =
    let (b, e, f) = process_classic-ClassicBorder s.threshold i p in
    (b, rw m e, ClassicBorder-BorderFits s.threshold i b f)
detect-BorderFits uninit s i p (inr (inr m)) =
    let (b, e, f) = process_osd-Finds s.threshold i p in
    (
      b,
      rw m e,
      Finds-BorderFits (column_lit s.threshold i)
          (λ x. osd_row_lit s.threshold i (loop_end s.threshold i x (i.width / 3))) i b f,
    )

blur_small :
    (c n m : ℕ) → n ≤ m → m + c < 2147483648 → (k : ℕ) × (blur c (pos n) ≡ pos k) × (k ≤ m + c)
unfolding blur to_int32
blur_small c zero m h s = (0, refl, omega arith)
blur_small c (suc n) m h s = (suc n + c, ground arith, omega arith)

abbrev blurred : ℕ → BlackBorder → BlackBorder
blurred c b = record b {
  horizontal_size = blur c b.horizontal_size;
  vertical_size = blur c b.vertical_size;
}

blurred-BorderFits :
    (c : ℕ) (i : Image) (b : BlackBorder)
    → i.width + c < 2147483648
    → i.height + c < 2147483648
    → BorderFits 0 i b
    → BorderFits c i (blurred c b)
blurred-BorderFits c i b w h (inl u) = inl u
blurred-BorderFits c i b w h (inr (x, y, ex, lx, ey, ly)) =
    let (x', fx, mx) = blur_small c x (i.width / 3) (omega arith) (omega arith) in
    let (y', fy, my) = blur_small c y (i.height / 3) (omega arith) (omega arith) in
    inr (x', y', rw ex fx, mx, rw ey fy, my)

-- A change of the current border sets it to the new border.
update_border_changed :
    (b : BlackBorder) (s : BlackBorderProcessor)
    → (update_border b s).1 ≡ true
    → (update_border b s).0.current_border ≡ b
unfolding update_border check_change
update_border_changed b s e = ground arith

update_border_config :
    (b : BlackBorder) (s : BlackBorderProcessor)
    → ((update_border b s).0.detection_mode ≡ s.detection_mode)
      × ((update_border b s).0.blur_remove_cnt ≡ s.blur_remove_cnt)
      × ((update_border b s).0.enabled ≡ s.enabled)
unfolding update_border check_change
update_border_config b s = ground arith

-- The configuration of the detector, which processing a picture does not change.
abbrev pub SameConfig : BlackBorderProcessor → BlackBorderProcessor → Type 0
SameConfig s t =
    (t.detection_mode ≡ s.detection_mode)
    × (t.blur_remove_cnt ≡ s.blur_remove_cnt)
    × (t.enabled ≡ s.enabled)

-- What processing a picture gives: the configuration stays, and a new border is one that fits.
abbrev pub Processed : Image → BlackBorderProcessor → BlackBorderProcessor × Bool → Type 0
Processed i s (t, changed) =
    SameConfig s t × ((changed ≡ true) → BorderFits s.blur_remove_cnt i t.current_border)

pub process_image-Processed :
    (uninit : BlackBorder) (i : Image) (s : BlackBorderProcessor)
    → IsPicture i
    → HasMode s
    → i.width + s.blur_remove_cnt < 2147483648
    → i.height + s.blur_remove_cnt < 2147483648
    → Gives (Processed i s) (process_image uninit i s)
unfolding process_image
process_image-Processed uninit i s p m w h =
    Gives-if (Processed i s) (not s.enabled) _ _
      (λ off. (_, refl, ((refl, refl, refl), λ c. inl refl)))
      (λ on.
        Gives-bind (BorderFits 0 i) (Processed i s) (detect uninit s i) _
          (detect-BorderFits uninit s i p m) (λ b f. (_, refl, after b f)))
  where
    after :
        (b : BlackBorder)
        → BorderFits 0 i b
        → Processed i s (update_border (blurred s.blur_remove_cnt b) s)
    after b f = (
      update_border_config (blurred s.blur_remove_cnt b) s,
      λ c.
          rw (update_border_changed (blurred s.blur_remove_cnt b) s c)
            (blurred-BorderFits s.blur_remove_cnt i b w h f),
    )
