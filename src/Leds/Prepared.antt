-- ===== src/Leds/Prepared.antt =====
-- `ImageProcessor` in include/hyperion/ImageProcessor.h: the mapping that is in use after a step is one
-- for the leds and for the sizes of the picture.
use hyperion_ng_beta.Prelude.{
  ℕ, ◌+◌, ◌*◌, ◌/◌, ◌<◌, ◌≡◌, refl, inl, inr, ◌&&◌, List, [], ◌∷◌, Option, some, none, All, arith,
  u32, length, length-map, ◌==◌, ltb, Gives, Gives-bind, Gives-if, map, subst,
}
use hyperion_ng_beta.Image.{Image, IsImage}
use hyperion_ng_beta.Border.{BlackBorder}
use hyperion_ng_beta.Border.Detect.{IsPicture}
use hyperion_ng_beta.Border.Processor.{BlackBorderProcessor, process_image}
use hyperion_ng_beta.Leds.Led.{Fractions, Led}
use hyperion_ng_beta.Leds.ImageToLedsMap.{ImageToLedsMap, new_map, led_offsets}
use hyperion_ng_beta.Leds.Area.{led_offsets_lem}
use hyperion_ng_beta.Leds.BorderFits.{
  BorderFits, HasMode, SameConfig, Processed, process_image-Processed,
}
use hyperion_ng_beta.Leds.ImageProcessor.{
  ImageProcessor, renew, keep_or_renew, set_size, border_map, to_unsigned, process_and_renew,
}

module _ (f : Fractions) where
  -- A mapping with the pixels of each led inside of its picture.
  abbrev pub Fits : List (Led f) → ImageToLedsMap → Type 0
  Fits leds m =
      (length m.colors_map ≡ length leds)
      × All (λ os. All (λ o. o < m.width * m.height) os) m.colors_map

  pub new_map-Fits :
      (w h hb vb : ℕ) (leds : List (Led f))
      → 2 * vb < w
      → 2 * hb < h
      → w * h < u32
      → Gives (λ m. Fits leds m × (m.width ≡ w) × (m.height ≡ h)) (new_map f w h hb vb leds)
  unfolding new_map
  new_map-Fits w h hb vb leds p q s =
      Gives-if _ (ltb (2 * vb) w && ltb (2 * hb) h) _ _
        (λ _. (_, refl, ((length-map leds (led_offsets f w h hb vb), inside leds), refl, refl)))
        (λ e. absurd (ground arith))
    where
      inside :
          (l : List (Led f)) → All (λ os. All (λ o. o < w * h) os) (map (led_offsets f w h hb vb) l)
      inside [] = tt
      inside (x ∷ l) = ((led_offsets_lem f w h hb vb x p q s).0, inside l)

  -- The mapping in use, if there is one, is one for the leds.
  abbrev pub Stored : List (Led f) → Option ImageToLedsMap → Type 0
  Stored leds none = Unit
  Stored leds (some m) = Fits leds m

  -- The state and the mapping after a step: for the same leds, and for this picture.
  pub record Prepared (i : Image) (s : ImageProcessor f) (r : ImageProcessor f × ImageToLedsMap)
      : Type 0 where
    pub same_leds : r.0.led_string ≡ s.led_string
    pub in_use : r.0.image_to_leds ≡ some r.1
    pub fits : Fits s.led_string r.1
    pub same_width : r.1.width ≡ i.width
    pub same_height : r.1.height ≡ i.height
    pub config : SameConfig s.border_processor r.0.border_processor

  pub renew-Prepared :
      (i : Image) (hb vb : ℕ) (s : ImageProcessor f)
      → IsImage i
      → 2 * vb < i.width
      → 2 * hb < i.height
      → Gives (Prepared i s) (renew f i.width i.height hb vb s)
  unfolding renew
  renew-Prepared i hb vb s v p q =
      Gives-bind _ (Prepared i s) (new_map f i.width i.height hb vb s.led_string) _
        (new_map-Fits i.width i.height hb vb s.led_string p q v.small)
        (λ m h. (
          _,
          refl,
          record {
            same_leds = refl;
            in_use = refl;
            fits = h.0;
            same_width = h.1;
            same_height = h.2;
            config = (refl, refl, refl);
          },
        ))

  pub set_size-Prepared :
      (i : Image) (s : ImageProcessor f)
      → IsPicture i
      → Stored s.led_string s.image_to_leds
      → Gives (Prepared i s) (set_size f i.width i.height s)
  unfolding set_size keep_or_renew
  set_size-Prepared i s (v, w, h) = go s.image_to_leds refl
    where
      fresh : Gives (Prepared i s) (renew f i.width i.height 0 0 s)
      fresh = renew-Prepared i 0 0 s v (omega arith) (omega arith)

      go :
          (o : Option ImageToLedsMap)
          → s.image_to_leds ≡ o
          → Stored s.led_string o
          → Gives (Prepared i s) (keep_or_renew f o i.width i.height s)
      go none e st = fresh
      go (some m) e st =
          Gives-if (Prepared i s) (m.width == i.width && m.height == i.height) _ _
            (λ t. (
              _,
              refl,
              record {
                same_leds = refl;
                in_use = e;
                fits = st;
                same_width = ground arith;
                same_height = ground arith;
                config = (refl, refl, refl);
              },
            ))
            (λ _. fresh)

  -- The sizes that keep a detected border, with its blur, away from the middle of the picture.
  pub record HasRoom (i : Image) (p : BlackBorderProcessor) : Type 0 where
    pub detects : HasMode p
    pub wide : 2 * (i.width / 3 + p.blur_remove_cnt) < i.width
    pub high : 2 * (i.height / 3 + p.blur_remove_cnt) < i.height
    pub wide_int : i.width + p.blur_remove_cnt < 2147483648
    pub high_int : i.height + p.blur_remove_cnt < 2147483648

  pub SameConfig-HasRoom :
      (i : Image) (p q : BlackBorderProcessor) → SameConfig p q → HasRoom i p → HasRoom i q
  SameConfig-HasRoom i p q (m, c, e) r = record {
    detects = rw m r.detects;
    wide = rw c r.wide;
    high = rw c r.high;
    wide_int = rw c r.wide_int;
    high_int = rw c r.high_int;
  }

  pub SameConfig-trans :
      (p q r : BlackBorderProcessor) → SameConfig p q → SameConfig q r → SameConfig p r
  SameConfig-trans p q r (a, b, c) (x, y, z) = (cc, cc, cc)

  -- A step after a step that keeps the leds and the configuration.
  pub Prepared-after :
      (i : Image) (s t : ImageProcessor f) (r : ImageProcessor f × ImageToLedsMap)
      → t.led_string ≡ s.led_string
      → SameConfig s.border_processor t.border_processor
      → Prepared i t r
      → Prepared i s r
  Prepared-after i s t r leds config p = record {
    same_leds = cc;
    in_use = p.in_use;
    fits = subst (λ l. Fits l r.1) leds p.fits;
    same_width = p.same_width;
    same_height = p.same_height;
    config =
        SameConfig-trans s.border_processor t.border_processor r.0.border_processor config p.config;
  }

  pub border_map-Prepared :
      (i : Image) (b : BlackBorder) (s : ImageProcessor f)
      → IsPicture i
      → HasRoom i s.border_processor
      → BorderFits s.border_processor.blur_remove_cnt i b
      → Gives (Prepared i s) (border_map f b i s)
  unfolding border_map to_unsigned
  border_map-Prepared i b s (v, w, h) room (inl u) =
      rw u (renew-Prepared i 0 0 s v (omega arith) (omega arith))
  border_map-Prepared i b s (v, w, h) room (inr (x, y, ex, lx, ey, ly)) =
      Gives-if (Prepared i s) b.unknown _ _
        (λ _. renew-Prepared i 0 0 s v (omega arith) (omega arith))
        (λ _.
          rw (ex, ey)
            (renew-Prepared i y x s v (omega (arith, room.wide)) (omega (arith, room.high))))

  pub process_and_renew-Prepared :
      (uninit : BlackBorder) (i : Image) (s : ImageProcessor f)
      → IsPicture i
      → HasRoom i s.border_processor
      → Gives (Prepared i s) (process_and_renew f uninit i s)
  unfolding process_and_renew
  process_and_renew-Prepared uninit i s (v, w, h) room =
      Gives-bind (Processed i s.border_processor) (Prepared i s)
        (process_image uninit i s.border_processor) _
        (process_image-Processed uninit i s.border_processor (v, w, h) room.detects room.wide_int
          room.high_int)
        (λ r done.
          let t : ImageProcessor f = record s { border_processor = r.0 } in
          let (q, e, p) = renew-Prepared i 0 0 t v (omega arith) (omega arith) in
          (q, e, Prepared-after i s t q refl done.0 p))
