-- ===== src/Core/Layout/Scan.antt =====
-- The two ends of a scan of the configuration that libsrc/hyperion/Hyperion.cpp reads, in order.
use hyperion_ng_beta.Prelude.{◌≡◌, refl, true, false, Bool-cases, inl, inr}
use hyperion_ng_beta.Leds.Led.{Fractions}
use hyperion_ng_beta.Core.Config.{Scans, Sorts, ends}

module _ (f : Fractions) (s : Scans f) where
  -- Both ends are clamped, and a first one that is greater changes places with the second one.
  pub data IsScan (minimum maximum : s.Raw) (x : f.Frac × f.Frac) : Type 0 where
    kept :
        s.gtb (s.clamp minimum) (s.clamp maximum) ≡ false
        → x ≡ (s.clamp minimum, s.clamp maximum)
        → IsScan minimum maximum x
    swapped :
        s.gtb (s.clamp minimum) (s.clamp maximum) ≡ true
        → x ≡ (s.clamp maximum, s.clamp minimum)
        → IsScan minimum maximum x

  pub ends-IsScan : (r : Sorts f) (a b : s.Raw) → IsScan a b (ends f s r a b)
  unfolding ends
  ends-IsScan r a b = elim (Bool-cases (s.gtb (s.clamp a) (s.clamp b))) [
    | inl greater ↦ swapped greater (rw greater refl)
    | inr ordered ↦ kept ordered (rw ordered refl)
  ]

  pub IsScan-ordered : (a b : s.Raw) (x : f.Frac × f.Frac) → IsScan a b x → s.gtb x.0 x.1 ≡ false
  IsScan-ordered a b x (kept ordered e) = rw e ordered
  IsScan-ordered a b x (swapped greater e) = rw e (s.gtb-asym _ _ greater)
