-- ===== src/Smoothing.antt =====
-- libsrc/hyperion/LinearColorSmoothing.cpp: colors that move to their target in steps, and a queue that
-- delays them. The writes to the led device are collected. Times are milliseconds; `none` is a write
-- of `memcpy` behind the end of a vector.
use hyperion_ng_beta.Prelude.{
  ℕ, zero, suc, ℤ, pos, negsuc, ◌+◌, ◌-◌, ◌%◌, ◌+ℤ◌, ◌-ℤ◌, Bool, true, false, not, ◌&&◌, ◌||◌,
  if◌then◌else◌, ltb, leb, ◌==◌, ltb_ℤ, to_int32, u32, List, [], ◌∷◌, ◌++◌, map, Option, none, some,
  ◌>>=◌, length, drop, ◌≤◌, ◌<◌, ◌≡◌, ◌≤ℤ◌, ◌<ℤ◌,
}
use hyperion_ng_beta.Color.{ColorRgb, black}
pub mod Queue
pub mod Moves
pub mod Steps
pub mod Tests

-- `std::ceil(k * n)` for the float `k = 1.0f - 1.0f * delta / span`.
pub record Floats : Type 0 where
  pub share : ℤ → ℤ → ℕ → ℕ
  -- A `k` from 0 to 1 gives no more than the whole.
  pub share-le :
      (delta span : ℤ) (n : ℕ)
      → pos 0 ≤ℤ delta
      → delta ≤ℤ span
      → pos 0 <ℤ span
      → share delta span n ≤ n
  -- A `k` above 0 gives something, where the times are exact as `float`.
  pub share-positive :
      (delta span : ℤ) (n : ℕ)
      → pos 0 ≤ℤ delta
      → delta <ℤ span
      → span <ℤ pos 16777216
      → 0 < n
      → n < 256
      → 0 < share delta span n
  -- A `k` of 1 gives the whole.
  pub share-whole : (span : ℤ) (n : ℕ) → pos 0 <ℤ span → n < 256 → share (pos 0) span n ≡ n

pub record LinearColorSmoothing : Type 0 where
  pub settling_time : ℤ
  pub target_values : List ColorRgb
  pub target_time : ℤ
  pub previous_values : List ColorRgb
  pub previous_time : ℤ
  pub output_delay : ℕ
  pub output_queue : List (List ColorRgb)
  pub write_to_leds_enable : Bool
  pub continuous_output : Bool
  pub enabled : Bool
  pub timer_active : Bool
  pub writes : List (List ColorRgb)

-- `memcpy` of all elements of one vector to the start of another.
unfoldable pub copy_onto {ℓ} : {A : Type ℓ} → List A → List A → Option (List A)
copy_onto source target =
    if leb (length source) (length target)
    then some (source ++ drop (length source) target)
    else none

unfoldable pub write : ℤ → ℤ → List ColorRgb → LinearColorSmoothing → Option LinearColorSmoothing
write now later led_values s =
    let target_time = now +ℤ s.settling_time in
    if length s.previous_values == 0
    then some (record s {
      target_time = target_time;
      target_values = led_values;
      previous_time = later;
      previous_values = led_values;
      timer_active = true;
    })
    else do
      values ← copy_onto led_values s.target_values
      some (record s { target_time = target_time; target_values = values })

-- `n` rounds of the loop that erases the queue; `pop_front` takes the front of what was pushed to.
unfoldable pub rotate : ℕ → List ColorRgb → List (List ColorRgb) → List (List ColorRgb)
rotate zero v queue = queue
rotate (suc n) v queue = rotate n v (drop 1 (queue ++ v ∷ []))

unfoldable pub switch_off : LinearColorSmoothing → LinearColorSmoothing
switch_off s =
    let dark = map (λ (c : ColorRgb). black) s.target_values in
    record s {
      target_values = dark;
      target_time = pos 0;
      output_queue = rotate (length s.output_queue) dark s.output_queue;
    }

-- The delay-buffer pops its front when it is longer than the delay, or when writing is off.
unfoldable pub pop_queue : List (List ColorRgb) → LinearColorSmoothing → LinearColorSmoothing
pop_queue [] s = s
pop_queue (front ∷ rest) s =
    if ltb s.output_delay (length (front ∷ rest)) || not s.write_to_leds_enable
    then record s { output_queue = rest; writes = s.writes ++ front ∷ [] }
    else s

-- The queue, with the colors pushed if writing is on.
unfoldable pub push_queue : List ColorRgb → LinearColorSmoothing → List (List ColorRgb)
push_queue led_colors s =
    if s.write_to_leds_enable then s.output_queue ++ led_colors ∷ [] else s.output_queue

unfoldable pub queue_colors : List ColorRgb → LinearColorSmoothing → LinearColorSmoothing
queue_colors led_colors s =
    if s.output_delay == 0
    then (if s.write_to_leds_enable then record s { writes = s.writes ++ led_colors ∷ [] } else s)
    else pop_queue (push_queue led_colors s) (record s { output_queue = push_queue led_colors s })

module _ (f : Floats) where
  -- One channel: the byte moves by the share of the difference, up or down.
  unfoldable pub move : ℤ → ℤ → ℕ → ℕ → ℕ
  move delta span prev target =
      if ltb target prev
      then (prev + 256 - f.share delta span (prev - target) % 256) % 256
      else (prev + f.share delta span (target - prev)) % 256

  unfoldable pub move_color : ℤ → ℤ → ColorRgb → ColorRgb → ColorRgb
  move_color delta span prev target = record {
    red = move delta span prev.red target.red;
    green = move delta span prev.green target.green;
    blue = move delta span prev.blue target.blue;
  }

  -- The loop over the previous values; `none` where there is no target.
  unfoldable pub move_all : ℤ → ℤ → List ColorRgb → List ColorRgb → Option (List ColorRgb)
  move_all delta span [] targets = some []
  move_all delta span (p ∷ ps) [] = none
  move_all delta span (p ∷ ps) (t ∷ ts) = do
    r ← move_all delta span ps ts
    some (move_color delta span p t ∷ r)

  unfoldable pub settle : ℤ → LinearColorSmoothing → Option LinearColorSmoothing
  settle now s = do
    values ← copy_onto s.target_values s.previous_values
    let t = queue_colors values (record s { previous_values = values; previous_time = now })
    some (record t { write_to_leds_enable = t.continuous_output })

  unfoldable pub approach : ℤ → ℤ → LinearColorSmoothing → Option LinearColorSmoothing
  approach now delta s = do
    values ← move_all delta (s.target_time -ℤ s.previous_time) s.previous_values s.target_values
    some (
        queue_colors values
          (record s { previous_values = values; previous_time = now; write_to_leds_enable = true }))

  -- The difference of the times, as an `int`.
  unfoldable pub delta_time : ℤ → LinearColorSmoothing → ℤ
  delta_time now s = elim (s.target_time -ℤ now) [
    | pos n ↦ to_int32 n
    | negsuc n ↦ to_int32 (u32 - suc n % u32)
  ]

  unfoldable pub update_leds : ℤ → LinearColorSmoothing → Option LinearColorSmoothing
  update_leds now s =
      let delta = delta_time now s in
      if ltb_ℤ delta (pos 0) then settle now s else approach now delta s

unfoldable pub set_enable : Bool → LinearColorSmoothing → LinearColorSmoothing
set_enable enable s =
    if enable
    then record s { enabled = true }
    else record s { enabled = false; timer_active = false; previous_values = [] }
