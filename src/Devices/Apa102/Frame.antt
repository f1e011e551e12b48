-- ===== src/Devices/Apa102/Frame.antt =====
-- The frame that libsrc/leddevice/LedDeviceAPA102.cpp sends.
use Prim.Native.Nat.{max}
use hyperion_ng_beta.Prelude.{
  ℕ, zero, suc, ◌+◌, ◌*◌, ◌/◌, ◌≡◌, ◌<◌, ◌≤◌, refl, subst, ◌∙◌, arith, if◌then◌else◌, ltb, ◌==◌,
  List, some, get_elem?, get_elem?-some, get_elem?-set, set, length, length-set, replicate,
  length-replicate, get_elem?-replicate, Gives, Bool-cases, inl, inr,
}
use hyperion_ng_beta.Color.{ColorRgb}
use hyperion_ng_beta.Devices.Apa102
use hyperion_ng_beta.Devices.Apa102.{LedDeviceApa102, end_frame_size, put_led, put_leds, write}

length-put_led : (i : ℕ) (c : ColorRgb) (b : List ℕ) → length (put_led i c b) ≡ length b
unfolding put_led
length-put_led i c b = omega (
  arith,
  length-set b (4 + i * 4) 255,
  length-set (set b (4 + i * 4) 255) (4 + i * 4 + 1) c.red,
  length-set (set (set b (4 + i * 4) 255) (4 + i * 4 + 1) c.red) (4 + i * 4 + 2) c.green,
  length-set (set (set (set b (4 + i * 4) 255) (4 + i * 4 + 1) c.red) (4 + i * 4 + 2) c.green)
      (4 + i * 4 + 3) c.blue,
)

-- The four bytes of a led.
abbrev pub ShowsLed : ℕ → ColorRgb → List ℕ → Type 0
ShowsLed i c b =
    (get_elem? b (4 + i * 4) ≡ some 255)
    × (get_elem? b (4 + i * 4 + 1) ≡ some c.red)
    × (get_elem? b (4 + i * 4 + 2) ≡ some c.green)
    × (get_elem? b (4 + i * 4 + 3) ≡ some c.blue)

get_elem?-put_led :
    (i k : ℕ) (c : ColorRgb) (b : List ℕ)
    → 4 + i * 4 + 3 < length b
    → get_elem? (put_led i c b) k ≡ (
        if k == 4 + i * 4 + 3
        then some c.blue
        else if k == 4 + i * 4 + 2
        then some c.green
        else if k == 4 + i * 4 + 1
        then some c.red
        else if k == 4 + i * 4
        then some 255
        else get_elem? b k)
unfolding put_led
get_elem?-put_led i k c b h =
    let b1 = set b (4 + i * 4) 255 in
    let b2 = set b1 (4 + i * 4 + 1) c.red in
    let b3 = set b2 (4 + i * 4 + 2) c.green in
    let n1 = length-set b (4 + i * 4) 255 in
    let n2 = length-set b1 (4 + i * 4 + 1) c.red in
    let n3 = length-set b2 (4 + i * 4 + 2) c.green in
    rw
      (
        get_elem?-set b3 (4 + i * 4 + 3) k c.blue (omega (arith, n1, n2, n3)),
        get_elem?-set b2 (4 + i * 4 + 2) k c.green (omega (arith, n1, n2)),
        get_elem?-set b1 (4 + i * 4 + 1) k c.red (omega (arith, n1)),
        get_elem?-set b (4 + i * 4) k 255 (omega arith),
      )
      refl

-- The leds from `i` on are in the buffer, and nothing else has changed.
pub record Shows (i n : ℕ) (led_values : List ColorRgb) (b r : List ℕ) : Type 0 where
  pub same_length : length r ≡ length b
  pub before : (k : ℕ) → k < 4 + i * 4 → get_elem? r k ≡ get_elem? b k
  pub behind : (k : ℕ) → 4 + (i + n) * 4 ≤ k → get_elem? r k ≡ get_elem? b k
  pub leds :
      (j : ℕ) (c : ColorRgb) → i ≤ j → j < i + n → get_elem? led_values j ≡ some c → ShowsLed j c r

put_led-ShowsLed :
    (i : ℕ) (c : ColorRgb) (b : List ℕ) → 4 + i * 4 + 3 < length b → ShowsLed i c (put_led i c b)
put_led-ShowsLed i c b h = (
  get_elem?-put_led i (4 + i * 4) c b h ∙ ground arith,
  get_elem?-put_led i (4 + i * 4 + 1) c b h ∙ ground arith,
  get_elem?-put_led i (4 + i * 4 + 2) c b h ∙ ground arith,
  get_elem?-put_led i (4 + i * 4 + 3) c b h ∙ ground arith,
)

put_leds-Shows :
    (i n : ℕ) (led_values : List ColorRgb) (b : List ℕ)
    → i + n ≤ length led_values
    → 4 + (i + n) * 4 ≤ length b
    → Gives (Shows i n led_values b) (put_leds i n led_values b)
unfolding put_leds
put_leds-Shows i zero v b h k = (
  b,
  refl,
  record {
    same_length = refl;
    before = λ k l. refl;
    behind = λ k l. refl;
    leds = λ j c l m e. absurd (omega arith);
  },
)
put_leds-Shows i (suc n) v b h k =
    let (rgb, e) = get_elem?-some v i (omega arith) in
    let b' = put_led i rgb b in
    let same = length-put_led i rgb b in
    let (r, er, s) = put_leds-Shows (i + 1) n v b' (omega arith) (omega (arith, same)) in
    let room : 4 + i * 4 + 3 < length b = omega arith in
    let (s0, s1, s2, s3) = put_led-ShowsLed i rgb b room in
    (
      r,
      rw e er,
      record {
        same_length = s.same_length ∙ same;
        before = λ k l. s.before k (omega arith) ∙ get_elem?-put_led i k rgb b room ∙ ground arith;
        behind = λ k l. s.behind k (omega arith) ∙ get_elem?-put_led i k rgb b room ∙ ground arith;
        leds = λ j c l m f. elim (Bool-cases (j == i)) [
          | inl here ↦
              let at : j ≡ i = ground arith in
              let first : ShowsLed i rgb r = (
                s.before (4 + i * 4) (omega arith) ∙ s0,
                s.before (4 + i * 4 + 1) (omega arith) ∙ s1,
                s.before (4 + i * 4 + 2) (omega arith) ∙ s2,
                s.before (4 + i * 4 + 3) (omega arith) ∙ s3,
              ) in
              let found : get_elem? v i ≡ some c = subst (λ x. get_elem? v x ≡ some c) at f in
              let same_color : rgb ≡ c = cc in rw at (subst (λ x. ShowsLed i x r) same_color first)
          | inr later ↦ s.leds j c (ground arith) (omega arith) f
        ];
      },
    )

-- The whole frame for `n` leds.
pub record IsFrame (n : ℕ) (led_values : List ColorRgb) (b : List ℕ) : Type 0 where
  pub size : length b ≡ n * 4 + 4 + end_frame_size n
  pub start : (k : ℕ) → k < 4 → get_elem? b k ≡ some 0
  pub shows : (j : ℕ) (c : ColorRgb) → j < n → get_elem? led_values j ≡ some c → ShowsLed j c b
  pub end : (k : ℕ) → 4 + n * 4 ≤ k → k < length b → get_elem? b k ≡ some 255
  pub clocked : n ≤ 16 * end_frame_size n

-- What `init` leaves in the buffer: the start frame and bytes that are all ones.
init_buffer :
    (n k : ℕ)
    → k < n * 4 + 4 + end_frame_size n
    → get_elem? (Apa102.init n).led_buffer k ≡ (if ltb k 4 then some 0 else some 255)
unfolding Apa102.init end_frame_size
init_buffer n k h =
    let size = n * 4 + 4 + max ((n + 15) / 16) 4 in
    let b : List ℕ = replicate size 255 in
    let b0 = set b 0 0 in
    let b1 = set b0 1 0 in
    let b2 = set b1 2 0 in
    let m = length-replicate {A = ℕ} size 255 in
    let m0 = length-set b 0 0 in
    let m1 = length-set b0 1 0 in
    let m2 = length-set b1 2 0 in
    rw
      (
        get_elem?-set b2 3 k 0 (omega (arith, m, m0, m1, m2)),
        get_elem?-set b1 2 k 0 (omega (arith, m, m0, m1)),
        get_elem?-set b0 1 k 0 (omega (arith, m, m0)),
        get_elem?-set b 0 k 0 (omega (arith, m)),
        get_elem?-replicate {A = ℕ} size k 255,
      )
      (ground (arith, h))

length-init : (n : ℕ) → length (Apa102.init n).led_buffer ≡ n * 4 + 4 + end_frame_size n
unfolding Apa102.init end_frame_size
length-init n =
    let size = n * 4 + 4 + max ((n + 15) / 16) 4 in
    let b : List ℕ = replicate size 255 in
    omega (
      arith,
      length-replicate {A = ℕ} size 255,
      length-set b 0 0,
      length-set (set b 0 0) 1 0,
      length-set (set (set b 0 0) 1 0) 2 0,
      length-set (set (set (set b 0 0) 1 0) 2 0) 3 0,
    )

-- After init for n leds of the APA102 device, write with at least as many colors reads no color
-- behind the end and leaves in the buffer the whole frame: four zeros, for each led 255 and its
-- three channels, and an end frame of ones that has at least one bit for every two leds.
pub write-IsFrame :
    (n : ℕ) (led_values : List ColorRgb)
    → n ≤ length led_values
    → Gives (λ t. IsFrame n led_values t.led_buffer) (write led_values (Apa102.init n))
unfolding write
write-IsFrame n v h =
    let size = length-init n in
    let (r, e, s) =
      put_leds-Shows 0 n v (Apa102.init n).led_buffer (omega arith) (omega (arith, size)) in
    let count : (Apa102.init n).led_count ≡ n = unfold Apa102.init in refl in
    (
      record (Apa102.init n) { led_buffer = r },
      rw (count, e) refl,
      record {
        size = s.same_length ∙ size;
        start = λ k l. s.before k (omega arith) ∙ init_buffer n k (omega arith) ∙ ground arith;
        shows = λ j c l f. s.leds j c (omega arith) (omega arith) f;
        end = λ k l m.
            s.behind k (omega arith)
            ∙ init_buffer n k (omega (arith, s.same_length, size))
            ∙ ground arith;
        clocked = unfold end_frame_size in (omega arith);
      },
    )
