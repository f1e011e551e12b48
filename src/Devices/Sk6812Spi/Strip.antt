-- ===== src/Devices/Sk6812Spi/Strip.antt =====
-- From the colors through the bus to the colors of the led strip.
use mathlib.Core.Path.{ap₂}
use hyperion_ng_beta.Prelude.{
  ℕ, ◌+◌, ◌*◌, List, [], ◌∷◌, ◌++◌, map, some, ◌>>=◌, length, length-append, length-replicate,
  length-take, length-drop, replicate, take, drop, take-append-drop, append_assoc, All, ◌≡◌, refl,
  sym, ap, ◌∙◌, arith, Gives, subst,
}
use hyperion_ng_beta.Color.{ColorRgb, IsByteColor}
use hyperion_ng_beta.Devices.Packets.{write_at}
use hyperion_ng_beta.Devices.Packets.Lists.{write_at-append}
use hyperion_ng_beta.Devices.Rgbw.{ColorRgbw, WhiteAlgorithm, rgb_to_rgbw}
use hyperion_ng_beta.Devices.Sk6812Spi
use hyperion_ng_beta.Devices.Sk6812Spi.{
  LedDeviceSk6812Spi, color_bits, put_pairs, put_colors, write,
}
use hyperion_ng_beta.Devices.Sk6812Spi.Coding.{pairs, put_pairs-pairs, length-pairs}
use hyperion_ng_beta.Devices.Sk6812Spi.Encoding.{
  IsImplemented, subtracts, leaves, add_white, read_leds, dark, rgb_to_rgbw-output, encoded,
  drop-append, read_leds-encoded, length-encoded, lists,
}

put_colors-encoded :
    {a : WhiteAlgorithm} (cs : List ColorRgb) (o : ColorRgbw) (before rest : List ℕ)
    → IsImplemented a
    → length rest ≡ 16 * length cs + 3
    → (p : ColorRgbw) × (more : List ℕ) × (put_colors
          (length before)
          cs
          (record { white_algorithm = a; temp_rgbw = o; led_buffer = before ++ rest })
        ≡ some (
          length before + 16 * length cs,
          record {
            white_algorithm = a;
            temp_rgbw = p;
            led_buffer = before ++ (encoded a cs ++ more);
          },
        ))
      × (length more ≡ 3)
unfolding put_colors
put_colors-encoded {a} [] o before rest i h = (
  o,
  rest,
  ap (λ k. some (k, record { white_algorithm = a; temp_rgbw = o; led_buffer = before ++ rest }))
      (omega arith),
  omega arith,
)
put_colors-encoded {a} (c ∷ cs) o before rest i h =
    let rgbw = rgb_to_rgbw c dark a in
    let bits = color_bits rgbw in
    let seg = take 16 rest in
    let later = drop 16 rest in
    let size : length seg ≡ 16 = omega (arith, length-take 16 rest) in
    let put : put_pairs (length before) 16 bits (before ++ rest)
        ≡ some ((before ++ pairs 16 bits) ++ later) =
      rw (take-append-drop 16 rest, sym (append_assoc before (pairs 16 bits) later)) at
        (put_pairs-pairs 16 bits before seg later size) in
    let begun = before ++ pairs 16 bits in
    let at : length before + 16 ≡ length begun =
      omega (arith, length-append before (pairs 16 bits), length-pairs 16 bits) in
    let (p, more, e, s) =
      put_colors-encoded cs rgbw begun later i (omega (arith, length-drop 16 rest)) in
    (
      p,
      more,
      rw (rgb_to_rgbw-output c o i, put, at, e)
          (ap₂ (λ k l. some (k, record { white_algorithm = a; temp_rgbw = p; led_buffer = l }))
            (omega (arith, at)) (lists before (pairs 16 bits) (encoded a cs) more)),
      s,
    )

three_of_length : (l : List ℕ) → length l ≡ 3 → (x y z : ℕ) × (l ≡ x ∷ y ∷ z ∷ [])
three_of_length (x ∷ y ∷ z ∷ []) h = (x, y, z, refl)
three_of_length _ h = absurd (omega arith)

-- The latch bytes behind the colors.
write_latch :
    {B : Type 0} (b : List ℕ) (n x y z : ℕ) (f : List ℕ → B)
    → n ≡ length b
    → (write_at (b ++ x ∷ y ∷ z ∷ []) n 0 >>= λ b1.
        write_at b1 (n + 1) 0 >>= λ b2. write_at b2 (n + 2) 0 >>= λ b3. some (f b3))
      ≡ some (f (b ++ 0 ∷ 0 ∷ 0 ∷ []))
write_latch b n x y z f e =
    let b1 = b ++ 0 ∷ [] in
    let b2 = b1 ++ 0 ∷ [] in
    let n1 : n + 1 ≡ length b1 = omega (arith, length-append b (0 ∷ [])) in
    let n2 : n + 2 ≡ length b2 = omega (arith, n1, length-append b1 (0 ∷ [])) in
    let first : write_at (b ++ x ∷ y ∷ z ∷ []) n 0 ≡ some (b1 ++ y ∷ z ∷ []) =
      rw e (
        write_at-append b (y ∷ z ∷ []) x 0
        ∙ ap some (sym (append_assoc b (0 ∷ []) (y ∷ z ∷ [])))) in
    let second : write_at (b1 ++ y ∷ z ∷ []) (n + 1) 0 ≡ some (b2 ++ z ∷ []) =
      rw n1 (write_at-append b1 (z ∷ []) y 0 ∙ ap some (sym (append_assoc b1 (0 ∷ []) (z ∷ [])))) in
    let third : write_at (b2 ++ z ∷ []) (n + 2) 0 ≡ some (b2 ++ 0 ∷ []) =
      rw n2 (write_at-append b2 [] z 0) in
    rw (first, second, third) (ap (λ l. some (f l)) (simp append_assoc))

-- For byte colors, one for each led, and a white algorithm that is implemented, write of the
-- SK6812 device writes nothing behind the end of its buffer, and a strip that reads the pairs of
-- bits back shows, white added to each of the other channels, exactly the colors; three zero bytes
-- follow.
pub read_leds-write :
    (a : WhiteAlgorithm) (colors : List ColorRgb) (o : ColorRgbw)
    → IsImplemented a
    → All IsByteColor colors
    → (d : LedDeviceSk6812Spi) × (Sk6812Spi.init (length colors) a o ≡ some d)
      × Gives
          (λ t.
            (map add_white (read_leds (length colors) t.led_buffer) ≡ colors)
            × (drop (16 * length colors) t.led_buffer ≡ 0 ∷ 0 ∷ 0 ∷ []))
          (write colors d)
unfolding Sk6812Spi.init write
read_leds-write a colors o i h =
    let n = length colors in
    let empty : List ℕ = replicate (4 * n * 4 + 3) 0 in
    let d : LedDeviceSk6812Spi = record {
      white_algorithm = a;
      temp_rgbw = o;
      led_buffer = empty;
    } in
    let (p, more, e, s) =
      put_colors-encoded colors o [] empty i
        (omega (arith, length-replicate {A = ℕ} (4 * n * 4 + 3) 0)) in
    let (x, y, z, m) = three_of_length more s in
    let code = encoded a colors in
    let size = length-encoded a colors in
    let t : LedDeviceSk6812Spi = record {
      white_algorithm = a;
      temp_rgbw = p;
      led_buffer = code ++ 0 ∷ 0 ∷ 0 ∷ [];
    } in
    (
      d,
      ready a n o i,
      (
        t,
        rw (e, m)
            (write_latch code (0 + 16 * n) x y z
              (λ l. record { white_algorithm = a; temp_rgbw = p; led_buffer = l })
              (omega (arith, size))),
        (
          read_leds-encoded colors (0 ∷ 0 ∷ 0 ∷ []) h i,
          subst (λ k. drop k t.led_buffer ≡ 0 ∷ 0 ∷ 0 ∷ []) size
              (drop-append code (0 ∷ 0 ∷ 0 ∷ [])),
        ),
      ),
    )
  where
    ready :
        (a : WhiteAlgorithm) (n : ℕ) (o : ColorRgbw)
        → IsImplemented a
        → Sk6812Spi.init n a o
          ≡ some (record {
            white_algorithm = a;
            temp_rgbw = o;
            led_buffer = replicate (4 * n * 4 + 3) 0;
          })
    ready a n o subtracts = refl
    ready a n o leaves = refl
