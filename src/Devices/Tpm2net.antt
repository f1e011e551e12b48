-- ===== src/Devices/Tpm2net.antt =====
-- libsrc/leddevice/LedDeviceTpm2net.cpp: the colors in packets of the tpm2.net protocol. The largest
-- number of bytes of a packet, from the configuration, is a number that is not negative; `fresh` is
-- what malloc gives. The result of writeBytes does not matter: write returns 0 in any case.
use hyperion_ng_beta.Prelude.{
  ℕ, ◌+◌, ◌*◌, ◌/◌, ◌%◌, ◌==◌, if◌then◌else◌, List, [], Option, none, some, ◌>>=◌,
}
use hyperion_ng_beta.Color.{ColorRgb}
use hyperion_ng_beta.Devices.Packets.{Format, Sending, raw_bytes, write_at, send_bytes}
pub mod Frames

pub record LedDeviceTpm2net : Type 0 where
  pub tpm2_max : ℕ
  pub tpm2_byte_count : ℕ
  pub tpm2_total_packets : ℕ

-- `none` is a division by zero.
unfoldable pub init : ℕ → ℕ → Option LedDeviceTpm2net
init led_count max_packet =
    let count = 3 * led_count in
    if max_packet == 0
    then none
    else some (record {
      tpm2_max = max_packet;
      tpm2_byte_count = count;
      tpm2_total_packets = 1 + count / max_packet;
    })

-- The start of a packet.
unfoldable pub start_frame : ℕ → ℕ → ℕ → List ℕ → Option (List ℕ)
unfolding write_at
start_frame total number bytes b = do
  b ← write_at b 0 0x9c
  b ← write_at b 1 0xda
  b ← write_at b 2 (bytes / 256 % 256)
  b ← write_at b 3 (bytes % 256)
  b ← write_at b 4 (number % 256)
  write_at b 5 (total % 256)

abbrev pub tpm2_format : LedDeviceTpm2net → Format
tpm2_format d = record {
  packet_max = d.tpm2_max;
  first = 6;
  start = λ i number bytes b. start_frame d.tpm2_total_packets number bytes b;
  stop = λ i b. write_at b i 0x36;
  size = λ n. n + 7;
}

-- The packets that writeBytes is called with.
unfoldable pub write : List ℕ → List ColorRgb → LedDeviceTpm2net → Option (List (List ℕ))
unfolding send_bytes raw_bytes start_frame
write fresh led_values d = do
  s ←
      send_bytes (tpm2_format d) d.tpm2_byte_count (raw_bytes led_values) 0 d.tpm2_byte_count
        (record { buffer = fresh; packet_bytes = 0; packet_number = 1; sent = [] })
  some s.sent
