-- ===== src/Devices/Sk6812Spi.antt =====
-- libsrc/leddevice/LedDeviceSk6812SPI.cpp: each pair of bits of a color becomes one byte for the SPI
-- bus. `none` is an access behind the end of the buffer.
use hyperion_ng_beta.Prelude.{
  ℕ, zero, suc, ◌+◌, ◌*◌, ◌/◌, ◌%◌, ◌==◌, if◌then◌else◌, List, [], ◌∷◌, Option, none, some, ◌>>=◌,
  replicate,
}
use hyperion_ng_beta.Color.{ColorRgb}
use hyperion_ng_beta.Devices.Packets.{write_at}
use hyperion_ng_beta.Devices.Rgbw.{
  ColorRgbw, WhiteAlgorithm, invalid, subtract_minimum, sub_min_warm_adjust, white_off, rgb_to_rgbw,
}
pub mod Coding
pub mod Encoding
pub mod Strip

pub record LedDeviceSk6812Spi : Type 0 where
  pub white_algorithm : WhiteAlgorithm
  pub temp_rgbw : ColorRgbw
  pub led_buffer : List ℕ

unfoldable pub bitpair_to_byte : ℕ → ℕ
bitpair_to_byte p =
    if p == 0
    then 0b10001000
    else if p == 1
    then 0b10001100
    else if p == 2
    then 0b11001000
    else 0b11001100

-- The device for `n` leds, four channels each; `none` if it is not ready. The last argument is what
-- the member that is not initialised holds.
unfoldable pub init : ℕ → WhiteAlgorithm → ColorRgbw → Option LedDeviceSk6812Spi
init led_count invalid rgbw = none
init led_count algorithm rgbw = some (record {
  white_algorithm = algorithm;
  temp_rgbw = rgbw;
  led_buffer = replicate (4 * led_count * 4 + 3) 0;
})

unfoldable pub color_bits : ColorRgbw → ℕ
color_bits c = (c.red * 16777216 + c.green * 65536 + c.blue * 256 + c.white) % 4294967296

-- The inner loop, from byte `j - 1` of the led down.
unfoldable pub put_pairs : ℕ → ℕ → ℕ → List ℕ → Option (List ℕ)
unfolding write_at bitpair_to_byte
put_pairs spi_ptr zero bits b = some b
put_pairs spi_ptr (suc j) bits b = do
  b' ← write_at b (spi_ptr + j) (bitpair_to_byte (bits % 4))
  put_pairs spi_ptr j (bits / 4) b'

-- The loop over the colors, with the pointer behind them.
unfoldable pub put_colors : ℕ → List ColorRgb → LedDeviceSk6812Spi → Option (ℕ × LedDeviceSk6812Spi)
put_colors spi_ptr [] d = some (spi_ptr, d)
put_colors spi_ptr (color ∷ led_values) d =
    let rgbw = rgb_to_rgbw color d.temp_rgbw d.white_algorithm in
    do
      b ← put_pairs spi_ptr 16 (color_bits rgbw) d.led_buffer
      put_colors (spi_ptr + 16) led_values (record d { temp_rgbw = rgbw; led_buffer = b })

unfoldable pub write : List ColorRgb → LedDeviceSk6812Spi → Option LedDeviceSk6812Spi
write led_values d = do
  (spi_ptr, e) ← put_colors 0 led_values d
  b ← write_at e.led_buffer spi_ptr 0
  b ← write_at b (spi_ptr + 1) 0
  b ← write_at b (spi_ptr + 2) 0
  some (record e { led_buffer = b })
