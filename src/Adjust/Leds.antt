-- ===== src/Adjust/Leds.antt =====
-- Which adjustment each led has, and what applying the adjustments does to each led
-- (MultiColorAdjustment.cpp).
use Prim.Native.String.{String}
use hyperion_ng_beta.Prelude.{
  ℕ, zero, suc, ◌+◌, ◌-◌, ◌<◌, ◌≤◌, ◌≡◌, refl, ap, arith, true, List, [], ◌∷◌, Option, none, some,
  length, get_elem?, set, leb, ltb, if◌then◌else◌, ◌&&◌, length-set, get_elem?-set, ◌≢◌, ◌⊎◌, inl,
  inr, Bool-cases, All, ◌↔◌,
}
use hyperion_ng_beta.Color.{ColorRgb}
use hyperion_ng_beta.Adjust.Doubles.{Doubles}
use hyperion_ng_beta.Adjust.Multi.{
  ColorAdjustment, MultiColorAdjustment, adjust_color, apply_led, apply_leds, apply_adjustment,
  fill_range, set_adjustment_for_led, get_adjustment, verify_leds, verify_adjustments, repair_at,
}

module _ (d : Doubles) where
  length-fill_range :
      (led n : ℕ) (a : Option ℕ) (l : List (Option ℕ)) → length (fill_range d led n a l) ≡ length l
  unfolding fill_range
  length-fill_range led zero a l = refl
  length-fill_range led (suc n) a l =
      omega (arith, length-fill_range (led + 1) n a (set l led a), length-set l led a)

  get_elem?-fill_range :
      (led n k : ℕ) (a : Option ℕ) (l : List (Option ℕ))
      → led + n ≤ length l
      → get_elem? (fill_range d led n a l) k
        ≡ (if leb led k && ltb k (led + n) then some a else get_elem? l k)
  unfolding fill_range
  get_elem?-fill_range led zero k a l h = ground arith
  get_elem?-fill_range led (suc n) k a l h = ground (
    arith,
    get_elem?-fill_range (led + 1) n k a (set l led a),
    get_elem?-set l led k a,
    length-set l led a,
  )

  -- setAdjustmentForLed fails exactly if the range is empty or reaches past the last led;
  -- otherwise the leds of the range, its end included, get the first adjustment with the given id,
  -- and nullptr if there is none, and all other leds keep theirs.
  pub set_adjustment_for_led_lem :
      (id : String) (start_led end_led : ℕ) (m : MultiColorAdjustment d)
      → ((set_adjustment_for_led d id start_led end_led m ≡ none)
          × ((end_led < start_led) ⊎ (length m.led_adjustments ≤ end_led)))
        ⊎ ((start_led ≤ end_led)
            × (end_led < length m.led_adjustments)
            × (t : MultiColorAdjustment d) × (set_adjustment_for_led d id start_led end_led m
                ≡ some t)
            × (t.adjustments ≡ m.adjustments)
            × ((k : ℕ)
                → get_elem? t.led_adjustments k ≡ (
                    if leb start_led k && leb k end_led
                    then some (get_adjustment d m id)
                    else get_elem? m.led_adjustments k)))
  unfolding set_adjustment_for_led
  set_adjustment_for_led_lem id s e m =
      elim (Bool-cases (leb s e && ltb e (length m.led_adjustments))) [
        | inr bad ↦ inl (rw bad, ground arith)
        | inl good ↦
            let a = get_adjustment d m id in
            inr (
              ground arith,
              ground arith,
              record m { led_adjustments = fill_range d s (e + 1 - s) a m.led_adjustments },
              rw good,
              refl,
              λ k. ground (arith, get_elem?-fill_range s (e + 1 - s) k a m.led_adjustments),
            )
      ]

  -- What happens to the color of a led: `none` stands for no led, `some none` for `nullptr`.
  abbrev pub at_led : Option (Option ℕ) → List (ColorAdjustment d) → ColorRgb → ColorRgb
  at_led none l c = c
  at_led (some none) l c = c
  at_led (some (some i)) l c = elim (get_elem? l i) [ none ↦ c | some a ↦ adjust_color d a c ]

  length-apply_leds :
      (l : List (ColorAdjustment d)) (ps : List (Option ℕ)) (colors : List ColorRgb)
      → length (apply_leds d l ps colors) ≡ length colors
  unfolding apply_leds
  length-apply_leds l [] colors = refl
  length-apply_leds l (p ∷ ps) [] = refl
  length-apply_leds l (p ∷ ps) (c ∷ colors) = ap suc (length-apply_leds l ps colors)

  get_elem?-apply_leds :
      (l : List (ColorAdjustment d)) (ps : List (Option ℕ)) (colors : List ColorRgb) (k : ℕ)
      (c : ColorRgb)
      → get_elem? colors k ≡ some c
      → get_elem? (apply_leds d l ps colors) k ≡ some (at_led (get_elem? ps k) l c)
  unfolding apply_leds apply_led
  get_elem?-apply_leds l [] colors k c e = e
  get_elem?-apply_leds l (p ∷ ps) [] k c e = cc
  get_elem?-apply_leds l (none ∷ ps) (x ∷ colors) zero c e = e
  get_elem?-apply_leds l (some i ∷ ps) (x ∷ colors) zero c e = ground arith
  get_elem?-apply_leds l (p ∷ ps) (x ∷ colors) (suc k) c e = get_elem?-apply_leds l ps colors k c e

  -- applyAdjustment keeps the number of colors; a color whose led has an adjustment is adjusted by
  -- it, and any other one, also one past the last led, stays as it is.
  pub apply_adjustment_lem :
      (m : MultiColorAdjustment d) (colors : List ColorRgb)
      → (length (apply_adjustment d m colors) ≡ length colors)
        × ((k : ℕ) (c : ColorRgb)
            → get_elem? colors k ≡ some c
            → get_elem? (apply_adjustment d m colors) k
              ≡ some (at_led (get_elem? m.led_adjustments k) m.adjustments c))
  unfolding apply_adjustment
  apply_adjustment_lem m colors = (
    length-apply_leds m.adjustments m.led_adjustments colors,
    get_elem?-apply_leds m.adjustments m.led_adjustments colors,
  )

  verify_leds_iff :
      (ps : List (Option ℕ)) (l : List (ColorAdjustment d))
      → ((verify_leds d ps l).1 ≡ true) ↔ All (λ p. p ≢ none) ps
  unfolding verify_leds
  verify_leds_iff [] l = ((λ e. tt), (λ h. refl))
  verify_leds_iff (none ∷ ps) l = ((λ e. cc), (λ h. absurd (h.0 refl)))
  verify_leds_iff (some i ∷ ps) l =
      let ih = verify_leds_iff ps (repair_at d i l) in
      ((λ e. ((λ e'. cc), ih.0 e)), (λ h. ih.1 h.1))

  -- verifyAdjustments succeeds exactly if every led has an adjustment.
  verify_adjustments_iff :
      (m : MultiColorAdjustment d)
      → ((verify_adjustments d m).1 ≡ true) ↔ All (λ p. p ≢ none) m.led_adjustments
  unfolding verify_adjustments
  verify_adjustments_iff m = verify_leds_iff m.led_adjustments m.adjustments
