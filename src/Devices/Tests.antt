-- ===== src/Devices/Tests.antt =====
-- The led devices of libsrc/leddevice on small examples.
use hyperion_ng_beta.Prelude.{
  List, [], ◌∷◌, map, some, arith, Gives, ◌+◌, ◌*◌, ◌%◌, drop, replicate, ◌≡◌, refl,
}
use hyperion_ng_beta.Color.{ColorRgb, black}
use hyperion_ng_beta.Devices.Apa102
use hyperion_ng_beta.Devices.Apa102.{write}
use hyperion_ng_beta.Devices.Apa102.Frame.{IsFrame, write-IsFrame}
use hyperion_ng_beta.Devices.Tpm2net
use hyperion_ng_beta.Devices.Tpm2net.{LedDeviceTpm2net}
use hyperion_ng_beta.Devices.Tpm2net.Frames.{IsSplit, write-IsSplit}
use hyperion_ng_beta.Devices.UdpE131
use hyperion_ng_beta.Devices.UdpE131.{LedDeviceUdpE131}
use hyperion_ng_beta.Devices.UdpE131.Frames.{IsSent, write-IsSent}
use hyperion_ng_beta.Devices.Rgbw.{ColorRgbw, subtract_minimum}
use hyperion_ng_beta.Devices.Sk6812Spi
use hyperion_ng_beta.Devices.Sk6812Spi.{LedDeviceSk6812Spi}
use hyperion_ng_beta.Devices.Sk6812Spi.Encoding.{read_leds, add_white, subtracts}
use hyperion_ng_beta.Devices.Sk6812Spi.Strip.{read_leds-write}

abbrev two_colors : List ColorRgb
two_colors = record { red = 250; green = 90; blue = 5 } ∷ black ∷ []

write-IsFrame_example :
    Gives (λ t. IsFrame 2 two_colors t.led_buffer) (write two_colors (Apa102.init 2))
write-IsFrame_example = write-IsFrame 2 two_colors (omega arith)

-- Six bytes in packets of four.
abbrev two_leds : LedDeviceTpm2net
two_leds = record { tpm2_max = 4; tpm2_byte_count = 6; tpm2_total_packets = 2 }

tpm2net_packets :
    Tpm2net.write (replicate 11 0) two_colors two_leds
    ≡ some (
        (0x9c ∷ 0xda ∷ 0 ∷ 4 ∷ 1 ∷ 2 ∷ 250 ∷ 90 ∷ 5 ∷ 0 ∷ 0x36 ∷ [])
        ∷ (0x9c ∷ 0xda ∷ 0 ∷ 2 ∷ 2 ∷ 2 ∷ 0 ∷ 0 ∷ 0x36 ∷ [])
        ∷ [])
unfolding Tpm2net.write
tpm2net_packets = refl

write-IsSplit_example :
    (d : LedDeviceTpm2net) × (Tpm2net.init 2 4 ≡ some d)
    × Gives
        (IsSplit 2 4 two_colors d.tpm2_total_packets)
        (Tpm2net.write (replicate 11 0) two_colors d)
write-IsSplit_example =
    write-IsSplit 2 4 two_colors (replicate 11 0) (omega arith) (omega arith) (omega arith)

abbrev e131_device : LedDeviceUdpE131
e131_device = record {
  led_rgb_count = 6;
  e131_seq = 255;
  e131_universe = 1;
  e131_cid = replicate 16 7;
  e131_source_name = 104 ∷ 121 ∷ [];
}

write-IsSent_example :
    Gives
      (λ r. (r.0 ≡ record e131_device { e131_seq = (255 + 1) % 256 }) × IsSent r.0 two_colors r.1)
      (UdpE131.write (replicate 638 0) two_colors e131_device)
write-IsSent_example =
    write-IsSent e131_device two_colors (replicate 638 0) (omega arith) (omega arith)

abbrev unset : ColorRgbw
unset = record { red = 1; green = 2; blue = 3; white = 4 }

read_leds-write_example :
    (d : LedDeviceSk6812Spi) × (Sk6812Spi.init 2 subtract_minimum unset ≡ some d)
    × Gives
        (λ t.
          (map add_white (read_leds 2 t.led_buffer) ≡ two_colors)
          × (drop (16 * 2) t.led_buffer ≡ 0 ∷ 0 ∷ 0 ∷ []))
        (Sk6812Spi.write two_colors d)
read_leds-write_example = read_leds-write subtract_minimum two_colors unset subtracts (omega arith)
