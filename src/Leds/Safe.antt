-- ===== src/Leds/Safe.antt =====
-- `ImageProcessor::process` in include/hyperion/ImageProcessor.h fails no assertion and reads no pixel
-- outside of the picture.
use hyperion_ng_beta.Prelude.{
  ℕ, ℤ, pos, ◌*◌, ◌<◌, ◌≡◌, refl, List, some, All, arith, length, eqb_ℤ, Gives, Gives-bind,
  Gives-if, subst, sym,
}
use hyperion_ng_beta.Color.{ColorRgb}
use hyperion_ng_beta.Image.{Image, IsImage}
use hyperion_ng_beta.Border.{BlackBorder}
use hyperion_ng_beta.Border.Detect.{IsPicture}
use hyperion_ng_beta.Border.Processor.{process_image}
use hyperion_ng_beta.Leds.Led.{Fractions}
use hyperion_ng_beta.Leds.ImageToLedsMap.{ImageToLedsMap, get_mean_led_color}
use hyperion_ng_beta.Leds.BorderFits.{BorderFits, Processed, process_image-Processed}
use hyperion_ng_beta.Leds.ImageProcessor.{
  ImageProcessor, get_led_count, process_and_switch, reset_border, switch_border, verify_border,
  led_colors, process,
}
use hyperion_ng_beta.Leds.Readable.{mean_colors-Gives, uni-Gives}
use hyperion_ng_beta.Leds.Prepared.{
  Stored, Prepared, HasRoom, SameConfig-HasRoom, SameConfig-trans, Prepared-after,
  set_size-Prepared, border_map-Prepared, process_and_renew-Prepared,
}

-- All offsets of the mapping of a picture of the sizes of the mapping are offsets of the picture.
inside_picture :
    (i : Image) (m : ImageToLedsMap)
    → IsImage i
    → m.width ≡ i.width
    → m.height ≡ i.height
    → All (λ os. All (λ o. o < m.width * m.height) os) m.colors_map
    → All (λ os. All (λ o. o < length i.pixels) os) m.colors_map
inside_picture i m v w h a =
    let full : m.width * m.height ≡ length i.pixels = rw (w, h) (sym v.full) in
    subst (λ n. All (λ os. All (λ o. o < n) os) m.colors_map) full a

module _ (f : Fractions) where
  process_and_switch-Prepared :
      (uninit : BlackBorder) (i : Image) (s : ImageProcessor f)
      (r : ImageProcessor f × ImageToLedsMap)
      → IsPicture i
      → HasRoom f i r.0.border_processor
      → Prepared f i s r
      → Gives (Prepared f i s) (process_and_switch f uninit i r)
  unfolding process_and_switch
  process_and_switch-Prepared uninit i s (t, m) p room prepared =
      Gives-bind (Processed i t.border_processor) (Prepared f i s)
        (process_image uninit i t.border_processor) _
        (process_image-Processed uninit i t.border_processor p room.detects room.wide_int
          room.high_int)
        (λ r done.
          let u : ImageProcessor f = record t { border_processor = r.0 } in
          Gives-if (Prepared f i s) r.1 _ _
            (λ changed.
              let room_after = SameConfig-HasRoom f i t.border_processor r.0 done.0 room in
              let fits : BorderFits r.0.blur_remove_cnt i r.0.current_border =
                rw done.0.1 (done.1 changed) in
              let (q, e, h) = border_map-Prepared f i r.0.current_border u p room_after fits in
              (
                q,
                e,
                Prepared-after f i s u q prepared.same_leds
                    (SameConfig-trans f s.border_processor t.border_processor r.0 prepared.config
                      done.0)
                    h,
              ))
            (λ _. (
              _,
              refl,
              record {
                same_leds = prepared.same_leds;
                in_use = prepared.in_use;
                fits = prepared.fits;
                same_width = prepared.same_width;
                same_height = prepared.same_height;
                config =
                    SameConfig-trans f s.border_processor t.border_processor r.0 prepared.config
                      done.0;
              },
            )))

  verify_border-Prepared :
      (uninit : BlackBorder) (i : Image) (s : ImageProcessor f)
      (r : ImageProcessor f × ImageToLedsMap)
      → IsPicture i
      → HasRoom f i s.border_processor
      → Prepared f i s r
      → Gives (Prepared f i s) (verify_border f uninit i r)
  unfolding verify_border reset_border switch_border
  verify_border-Prepared uninit i s (t, m) p room prepared =
      let room_at = λ (q : ImageProcessor f × ImageToLedsMap) (h : Prepared f i s q).
        SameConfig-HasRoom f i s.border_processor q.0.border_processor h.config room in
      Gives-bind (Prepared f i s) (Prepared f i s) (reset_border f uninit i (t, m)) _
        (Gives-if (Prepared f i s) _ _ _
          (λ _.
            let (q, e, h) = process_and_renew-Prepared f uninit i t p (room_at (t, m) prepared) in
            (q, e, Prepared-after f i s t q prepared.same_leds prepared.config h))
          (λ _. (_, refl, prepared)))
        (λ q h.
          Gives-if (Prepared f i s) q.0.border_processor.enabled _ _
            (λ _. process_and_switch-Prepared uninit i s q p (room_at q h) h) (λ _. (_, refl, h)))

  led_colors-Gives :
      (modulus : ℕ) (t : ℤ) (i : Image) (s : ImageProcessor f)
      (r : ImageProcessor f × ImageToLedsMap)
      → IsPicture i
      → Prepared f i s r
      → Gives (λ cs. length cs ≡ length s.led_string) (led_colors f modulus t r.1 i)
  unfolding led_colors get_mean_led_color
  led_colors-Gives modulus t i s (u, m) (v, w, h) p =
      Gives-if _ (eqb_ℤ t (pos 1)) _ _
        (λ _.
          let (cs, e, l) = uni-Gives modulus m i (v, w, h) in (cs, e, omega (arith, l, p.fits.0)))
        (λ _.
          let (cs, e, l) =
            mean_colors-Gives modulus i m.colors_map
              (inside_picture i m v p.same_width p.same_height p.fits.1) in
          (cs, e, omega (arith, l, p.fits.0)))

  -- For a picture that leaves room for the borders, and a mapping that is one for the leds,
  -- ImageProcessor::process fails no assertion, divides by no zero and reads no pixel outside of
  -- the picture; it gives one color for each led and leaves a mapping for the same leds and for
  -- the sizes of this picture.
  pub process-Prepared :
      (modulus : ℕ) (uninit : BlackBorder) (i : Image) (s : ImageProcessor f)
      → IsPicture i
      → HasRoom f i s.border_processor
      → Stored f s.led_string s.image_to_leds
      → (t : ImageProcessor f) × (colors : List ColorRgb) × (m : ImageToLedsMap) × (process f
            modulus uninit i s
          ≡ some (t, colors))
        × (length colors ≡ get_led_count f s)
        × Prepared f i s (t, m)
  unfolding process get_led_count
  process-Prepared modulus uninit i s p room stored =
      let (q, e, h) = set_size-Prepared f i s p stored in
      let (r, e', h') = verify_border-Prepared uninit i s q p room h in
      let (cs, e'', l) = led_colors-Gives modulus r.0.mapping_type i s r p h' in
      (r.0, cs, r.1, rw (e, e', e'') refl, l, h')
