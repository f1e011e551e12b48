-- ===== src/Smoothing/Steps.antt =====
-- The steps of the colors in libsrc/hyperion/LinearColorSmoothing.cpp.
use hyperion_ng_beta.Prelude.{
  ℕ, ℤ, pos, ◌-ℤ◌, ◌≡◌, ◌<◌, ◌≤ℤ◌, ◌<ℤ◌, refl, sym, ap, subst, arith, true, false, leb, ltb_ℤ, List,
  [], ◌∷◌, ◌++◌, some, length, append_nil, drop-length, ◌∙◌, -ℤ_parts, eq_of_parts, All, Gives,
}
use hyperion_ng_beta.Color.{ColorRgb, IsByteColor}
use hyperion_ng_beta.Smoothing.Moves.{
  Between, Nearer, Arrived, Channels, move-Between, move-Nearer, move-Arrived, move_all-Gives,
  Arrived-eq,
}
use hyperion_ng_beta.Smoothing.{
  Floats, LinearColorSmoothing, copy_onto, move, settle, approach, delta_time, update_leds,
  queue_colors, pop_queue, push_queue,
}

pop_queue_values :
    (q : List (List ColorRgb)) (s : LinearColorSmoothing)
    → ((pop_queue q s).previous_values ≡ s.previous_values)
      × ((pop_queue q s).previous_time ≡ s.previous_time)
unfolding pop_queue
pop_queue_values [] s = (refl, refl)
pop_queue_values (x ∷ q) s = ground arith

queue_colors_values :
    (x : List ColorRgb) (s : LinearColorSmoothing)
    → ((queue_colors x s).previous_values ≡ s.previous_values)
      × ((queue_colors x s).previous_time ≡ s.previous_time)
unfolding queue_colors
queue_colors_values x s =
    let q = push_queue x s in ground (arith, pop_queue_values q (record s { output_queue = q }))

copy_onto_same {ℓ} :
    {A : Type ℓ} (source target : List A)
    → length source ≡ length target
    → copy_onto source target ≡ some source
unfolding copy_onto
copy_onto_same source target e =
    let fits : leb (length source) (length target) ≡ true = ground (arith, e) in
    rw fits (ap some (ap (λ l. source ++ l) (rw e (drop-length target)) ∙ append_nil source))

ltb_ℤ_false : (a : ℤ) → ltb_ℤ a (pos 0) ≡ false → pos 0 ≤ℤ a
unfolding ltb_ℤ
ltb_ℤ_false a h = ground arith

-- The kinds of steps. `over`: the time of the target minus now, as an `int`, is negative. The others are
-- not after the time of the target, which is later than the last step, and that difference fits an
-- `int`: `still` is not before the last step; `passes` is after it, where the way from it to the time
-- of the target is below 2^24; `arrives` is at the time of the target.
pub data IsStep (f : Floats) (now : ℤ) (s : LinearColorSmoothing) : Type 0 where
  over : delta_time f now s <ℤ pos 0 → IsStep f now s
  still :
      delta_time f now s ≡ s.target_time -ℤ now
      → s.previous_time ≤ℤ now
      → now ≤ℤ s.target_time
      → s.previous_time <ℤ s.target_time
      → IsStep f now s
  passes :
      delta_time f now s ≡ s.target_time -ℤ now
      → s.previous_time <ℤ now
      → now ≤ℤ s.target_time
      → s.target_time -ℤ s.previous_time <ℤ pos 16777216
      → IsStep f now s
  arrives :
      delta_time f now s ≡ s.target_time -ℤ now
      → now ≡ s.target_time
      → s.previous_time <ℤ s.target_time
      → IsStep f now s

-- What the colors are after each kind of step.
abbrev pub Result :
    {f : Floats} {now : ℤ} {s : LinearColorSmoothing} → IsStep f now s → List ColorRgb → Type 0
Result {s = s} (over past) vs = vs ≡ s.target_values
Result {s = s} (still fits earlier later moves) vs =
    Channels Between s.previous_values s.target_values vs
Result {s = s} (passes fits earlier later short) vs =
    Channels Nearer s.previous_values s.target_values vs
Result {s = s} (arrives fits at_end moves) vs = vs ≡ s.target_values

over_test : (a : ℤ) → a <ℤ pos 0 → ltb_ℤ a (pos 0) ≡ true
unfolding ltb_ℤ
over_test a h = ground arith

still_test : (a b : ℤ) → b ≤ℤ a → ltb_ℤ (a -ℤ b) (pos 0) ≡ false
unfolding ltb_ℤ
still_test a b h = ground (arith, -ℤ_parts a b)

-- The parts of the way from the last step, at `p`, to the time of the target, at `t`.
way :
    (p now t : ℤ)
    → p ≤ℤ now
    → now ≤ℤ t
    → p <ℤ t
    → (pos 0 ≤ℤ t -ℤ now) × (t -ℤ now ≤ℤ t -ℤ p) × (pos 0 <ℤ t -ℤ p)
way p now t earlier later moves = (
  omega (arith, -ℤ_parts t now, -ℤ_parts t p, later),
  omega (arith, -ℤ_parts t now, -ℤ_parts t p, earlier),
  omega (arith, -ℤ_parts t p, moves),
)

-- A step before the time of the target moves the colors.
approach-Gives :
    (f : Floats) (now : ℤ) (s : LinearColorSmoothing) (P : ℕ → ℕ → ℕ → Type 0)
    → let delta = s.target_time -ℤ now in
      ((a b : ℕ) → a < 256 → b < 256 → P a b (move f delta (s.target_time -ℤ s.previous_time) a b))
      → All IsByteColor s.previous_values
      → All IsByteColor s.target_values
      → length s.previous_values ≡ length s.target_values
      → delta_time f now s ≡ s.target_time -ℤ now
      → now ≤ℤ s.target_time
      → Gives
          (λ t.
            Channels P s.previous_values s.target_values t.previous_values
            × (t.previous_time ≡ now))
          (update_leds f now s)
unfolding update_leds approach
approach-Gives f now s P each a b e fits later =
    let delta = s.target_time -ℤ now in
    let span = s.target_time -ℤ s.previous_time in
    let (r, er, moved) =
      move_all-Gives f delta span P each s.previous_values s.target_values a b e in
    let (values, time) =
      queue_colors_values r
        (record s { previous_values = r; previous_time = now; write_to_leds_enable = true }) in
    rw (fits, still_test s.target_time now later, er)
      (_, refl, (subst (Channels P s.previous_values s.target_values) (sym values) moved, time))

at_end-way : (now t : ℤ) → now ≡ t → (now ≤ℤ t) × (t ≤ℤ now) × (t -ℤ now ≡ pos 0)
at_end-way now t e =
    rw e (omega arith, omega arith, eq_of_parts (t -ℤ t) (pos 0) (omega (arith, -ℤ_parts t t)))

-- With as many old colors as targets, all of bytes, updateLeds copies nothing behind the end of a
-- vector and notes its time as that of the last step. If the time of the target minus now, as an
-- int, is negative, then the colors are the target after the step, whatever the other times are.
-- Otherwise let the step be not before the last one nor after the time of the target, the target
-- later than the last step, and that difference fit an int. Then each channel of each color lies
-- between its old value and its target after the step, so that none overshoots or wraps; at the
-- time of the target the colors are the target; and if time has passed since the last step, and
-- the target was less than 2^24 ms away at it, each channel that is not at its target comes nearer
-- to it.
pub update_leds_lem :
    (f : Floats) (now : ℤ) (s : LinearColorSmoothing)
    → All IsByteColor s.previous_values
    → All IsByteColor s.target_values
    → length s.previous_values ≡ length s.target_values
    → (step : IsStep f now s)
    → Gives (λ t. Result step t.previous_values × (t.previous_time ≡ now)) (update_leds f now s)
unfolding update_leds settle
update_leds_lem f now s a b e (over past) =
    let copied = copy_onto_same s.target_values s.previous_values (sym e) in
    rw (over_test (delta_time f now s) past, copied)
      (_, refl, queue_colors_values s.target_values _)
update_leds_lem f now s a b e (still fits earlier later moves) =
    let (from, to, long) = way s.previous_time now s.target_time earlier later moves in
    approach-Gives f now s Between (λ x y p q. move-Between f _ _ x y from to long p q) a b e fits
      later
update_leds_lem f now s a b e (passes fits earlier later short) =
    let (from, to, long) =
      way s.previous_time now s.target_time (omega (arith, earlier)) later
        (omega (arith, earlier, later)) in
    let below : s.target_time -ℤ now <ℤ s.target_time -ℤ s.previous_time =
      omega (arith, -ℤ_parts s.target_time now, -ℤ_parts s.target_time s.previous_time, earlier) in
    approach-Gives f now s Nearer (λ x y p q. move-Nearer f _ _ x y from below to long short p q) a
      b e fits later
update_leds_lem f now s a b e (arrives fits at_end moves) =
    let (later, reached, none_left) = at_end-way now s.target_time at_end in
    let (from, to, long) =
      way s.previous_time now s.target_time (omega (arith, moves, reached)) later moves in
    let (t, et, (arrived, time)) =
      approach-Gives f now s Arrived (λ x y p q. move-Arrived f _ _ x y none_left long p q) a b e
        fits later in
    (t, et, (Arrived-eq arrived, time))
