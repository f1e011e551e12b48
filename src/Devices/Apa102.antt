-- ===== src/Devices/Apa102.antt =====
-- libsrc/leddevice/LedDeviceAPA102.cpp: a start frame, four bytes for each led, and an end frame.
use Prim.Native.Nat.{max}
use hyperion_ng_beta.Prelude.{
  ℕ, zero, suc, ◌+◌, ◌*◌, ◌/◌, List, [], ◌∷◌, Option, none, some, ◌>>=◌, get_elem?, set, replicate,
}
use hyperion_ng_beta.Color.{ColorRgb}
pub mod Frame

pub record LedDeviceApa102 : Type 0 where
  pub led_count : ℕ
  pub led_buffer : List ℕ

unfoldable pub end_frame_size : ℕ → ℕ
end_frame_size led_count = max ((led_count + 15) / 16) 4

unfoldable pub init : ℕ → LedDeviceApa102
init led_count =
    let size = led_count * 4 + 4 + end_frame_size led_count in
    record {
      led_count = led_count;
      led_buffer = set (set (set (set (replicate size 255) 0 0) 1 0) 2 0) 3 0;
    }

-- The body of the loop of `write`.
unfoldable pub put_led : ℕ → ColorRgb → List ℕ → List ℕ
put_led i rgb buffer =
    set (set (set (set buffer (4 + i * 4) 255) (4 + i * 4 + 1) rgb.red) (4 + i * 4 + 2) rgb.green)
      (4 + i * 4 + 3) rgb.blue

-- `n` rounds of the loop from led `i` on; `none` is a read behind the end of the values.
unfoldable pub put_leds : ℕ → ℕ → List ColorRgb → List ℕ → Option (List ℕ)
put_leds i zero led_values buffer = some buffer
put_leds i (suc n) led_values buffer = do
  rgb ← get_elem? led_values i
  put_leds (i + 1) n led_values (put_led i rgb buffer)

-- The bytes that are written to the device are those of the buffer.
unfoldable pub write : List ColorRgb → LedDeviceApa102 → Option LedDeviceApa102
write led_values d = do
  buffer ← put_leds 0 d.led_count led_values d.led_buffer
  some (record d { led_buffer = buffer })
