-- ===== src/Border/Processor/Open.antt =====
-- What holds of the border processor between two frames (BlackBorderProcessor.cpp).
use Prim.Native.String.{String}
use hyperion_ng_beta.Prelude.{
  ℕ, ◌+◌, ◌≤◌, ◌<◌, ◌≡◌, refl, ◌⊎◌, inl, inr, Bool, true, List, [], ◌∷◌, arith, u32, ◌%◌,
  if◌then◌else◌, leb, Bool-cases, eqb_ℤ_refl, eqb_ℤ_iff, ℤ, Option, some, ◌>>=◌, OnSome,
  OnSome-bind, OnSome-if, OnSome-any, not,
}
use hyperion_ng_beta.Image.{Image}
use hyperion_ng_beta.Border.{BlackBorder, border_eq}
use hyperion_ng_beta.Border.Processor.{
  BlackBorderProcessor, update_border, check_change, set_enabled, init, process_image, detect,
}

pub border_eq_refl : (b : BlackBorder) → border_eq b b ≡ true
unfolding border_eq
border_eq_refl b = ground (arith, eqb_ℤ_refl b.horizontal_size, eqb_ℤ_refl b.vertical_size)

pub border_eq_sym : (a b : BlackBorder) → border_eq a b ≡ border_eq b a
unfolding border_eq
border_eq_sym a b = ground (
  arith,
  eqb_ℤ_iff a.horizontal_size b.horizontal_size,
  eqb_ℤ_iff b.horizontal_size a.horizontal_size,
  eqb_ℤ_iff a.vertical_size b.vertical_size,
  eqb_ℤ_iff b.vertical_size a.vertical_size,
)

-- How many equal frames make a border of this kind the current one.
abbrev pub switch_cnt : BlackBorderProcessor → BlackBorder → ℕ
switch_cnt s b = if b.unknown then s.unknown_switch_cnt else s.border_switch_cnt

-- A count that has reached its limit has done its work: unless the previous border is the current one
-- or the current one is unknown, the count is still below the limit.
abbrev pub IsOpen : BlackBorderProcessor → Type 0
IsOpen s =
    (border_eq s.current_border s.previous_detected_border ≡ true)
    ⊎ (s.current_border.unknown ≡ true)
    ⊎ (s.consistent_cnt < switch_cnt s s.previous_detected_border)

-- A new processor.
pub init-IsOpen : (e : Bool) (u n m r : ℕ) (mode : String) (t : ℤ) → IsOpen (init e u n m r mode t)
unfolding init
init-IsOpen e u n m r mode t = inr (inl refl)

pub border_eq_trans :
    (a b c : BlackBorder) → border_eq a b ≡ true → border_eq b c ≡ true → border_eq a c ≡ true
unfolding border_eq
border_eq_trans a b c p q = ground (
  arith,
  eqb_ℤ_iff a.horizontal_size b.horizontal_size,
  eqb_ℤ_iff b.horizontal_size c.horizontal_size,
  eqb_ℤ_iff a.horizontal_size c.horizontal_size,
  eqb_ℤ_iff a.vertical_size b.vertical_size,
  eqb_ℤ_iff b.vertical_size c.vertical_size,
  eqb_ℤ_iff a.vertical_size c.vertical_size,
)

pub border_eq-unknown : (a b : BlackBorder) → border_eq a b ≡ true → a.unknown ≡ b.unknown
unfolding border_eq
border_eq-unknown a b e = ground arith

pub border_eq_both :
    (a b : BlackBorder) → a.unknown ≡ true → b.unknown ≡ true → border_eq b a ≡ true
unfolding border_eq
border_eq_both a b p q = ground arith

-- `update_border` in the case that the frame equals the previous one.
check_change-IsOpen :
    (b : BlackBorder) (s : BlackBorderProcessor)
    → border_eq b s.previous_detected_border ≡ true
    → (border_eq s.current_border b ≡ true)
      ⊎ (s.current_border.unknown ≡ true)
      ⊎ (s.consistent_cnt ≤ switch_cnt s b)
    → IsOpen (check_change b s).0
unfolding check_change
check_change-IsOpen b s e h = ground (
  arith,
  border_eq_trans s.current_border b s.previous_detected_border,
  border_eq-unknown b s.previous_detected_border e,
)

-- Each frame keeps an open processor open.
pub update_border-IsOpen :
    (b : BlackBorder) (s : BlackBorderProcessor) → IsOpen s → IsOpen (update_border b s).0
unfolding update_border
update_border-IsOpen b s h = elim (Bool-cases (border_eq b s.previous_detected_border)) [
  | inl e ↦ rw e (
      check_change-IsOpen b _ e (
        ground (
          arith,
          border_eq_trans s.current_border s.previous_detected_border b,
          border_eq_sym b s.previous_detected_border,
          border_eq-unknown b s.previous_detected_border e,
        )))
  | inr e ↦ rw e (elim (Bool-cases (leb ((s.inconsistent_cnt + 1) % u32) s.max_inconsistent_cnt)) [
    | inl few ↦ rw few h
    | inr many ↦ rw many (check_change-IsOpen b _ (border_eq_refl b) (inr (inr (omega arith))))
  ])
]

-- A step of the processor: a frame that is processed, or a change of the setting.
pub data Event : Type 0 where
  frame : BlackBorder → Image → Event
  enables : Bool → Event

-- `none` is a read outside of a picture.
abbrev pub step : Event → BlackBorderProcessor → Option BlackBorderProcessor
step (frame uninit image) s = do r ← process_image uninit image s; some r.0
step (enables enable) s = some (set_enabled enable s)

abbrev pub run : List Event → BlackBorderProcessor → Option BlackBorderProcessor
run [] s = some s
run (e ∷ es) s = step e s >>= run es

process_image-IsOpen :
    (uninit : BlackBorder) (image : Image) (s : BlackBorderProcessor)
    → IsOpen s
    → OnSome (λ r. IsOpen r.0) (process_image uninit image s)
unfolding process_image
process_image-IsOpen uninit image s o =
    OnSome-if (λ r. IsOpen r.0) (not s.enabled) _ _ (inr (inl refl))
      (OnSome-bind (λ _. Unit {0}) (λ r. IsOpen r.0) (detect uninit s image) _
        (OnSome-any (detect uninit s image)) (λ b _. update_border-IsOpen _ s o))

step-IsOpen : (e : Event) (s : BlackBorderProcessor) → IsOpen s → OnSome IsOpen (step e s)
unfolding set_enabled
step-IsOpen (enables enable) s o = o
step-IsOpen (frame uninit image) s o =
    OnSome-bind (λ r. IsOpen r.0) IsOpen (process_image uninit image s) (λ r. some r.0)
      (process_image-IsOpen uninit image s o) (λ r h. h)

pub run-IsOpen : (es : List Event) (s : BlackBorderProcessor) → IsOpen s → OnSome IsOpen (run es s)
run-IsOpen [] s o = o
run-IsOpen (e ∷ es) s o =
    OnSome-bind IsOpen IsOpen (step e s) (run es) (step-IsOpen e s o) (λ t h. run-IsOpen es t h)
