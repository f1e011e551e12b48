-- ===== src/Devices/UdpE131.antt =====
-- libsrc/leddevice/LedDeviceUdpE131.cpp and LedDeviceUdpE131.h: the colors in packets of E1.31, each
-- for a universe of 512 channels. A packet is the list of its bytes; htons and htonl give the bytes of
-- a number, the highest first. The result of writeBytes does not matter: write returns 0 in any case.
use Prim.Native.Nat.{bit_or}
use hyperion_ng_beta.Prelude.{
  ℕ, ◌+◌, ◌-◌, ◌*◌, ◌/◌, ◌%◌, List, [], ◌∷◌, ◌++◌, Option, some, ◌>>=◌, length, take, replicate,
}
use hyperion_ng_beta.Color.{ColorRgb}
use hyperion_ng_beta.Devices.Packets.{Format, raw_bytes, send_bytes}
pub mod Frames

-- The members, with the 16 bytes of the id and the bytes of the name of the source.
pub record LedDeviceUdpE131 : Type 0 where
  pub led_rgb_count : ℕ
  pub e131_seq : ℕ
  pub e131_universe : ℕ
  pub e131_cid : List ℕ
  pub e131_source_name : List ℕ

abbrev pub dmx_max : ℕ
dmx_max = 512

abbrev pub acn_id : List ℕ
acn_id = 0x41 ∷ 0x53 ∷ 0x43 ∷ 0x2d ∷ 0x45 ∷ 0x31 ∷ 0x2e ∷ 0x31 ∷ 0x37 ∷ 0x00 ∷ 0x00 ∷ 0x00 ∷ []

unfoldable pub htons : ℕ → List ℕ
htons v = v / 256 % 256 ∷ v % 256 ∷ []

unfoldable pub htonl : ℕ → List ℕ
unfolding htons
htonl v = htons (v / 65536) ++ htons v

-- A field of `n` bytes that was zero, and to which no more bytes are copied.
unfoldable pub packet_field : ℕ → List ℕ → List ℕ
packet_field n bytes = take n bytes ++ replicate (n - length (take n bytes)) 0

unfoldable pub root_layer : LedDeviceUdpE131 → ℕ → List ℕ
unfolding htons htonl packet_field
root_layer d count =
    htons 16
    ++ (htons 0
        ++ (acn_id
            ++ (htons (bit_or 0x7000 (110 + count)) ++ (htonl 4 ++ packet_field 16 d.e131_cid))))

-- The name of the source, its end, the priority, two reserved bytes, the sequence number, the options.
unfoldable pub frame_layer : LedDeviceUdpE131 → ℕ → ℕ → List ℕ
unfolding htons htonl packet_field
frame_layer d this_universe count =
    htons (bit_or 0x7000 (88 + count))
    ++ (htonl 2
        ++ (packet_field 63 d.e131_source_name
            ++ (0 ∷ 100 ∷ 0 ∷ 0 ∷ d.e131_seq ∷ 0 ∷ htons this_universe)))

-- The layer of the channels, with the start code.
unfoldable pub dmx_layer : ℕ → List ℕ
unfolding htons
dmx_layer count =
    htons (bit_or 0x7000 (11 + count))
    ++ (2 ∷ 0xa1 ∷ (htons 0 ++ (htons 1 ++ (htons (1 + count) ++ (0 ∷ [])))))

-- What `prepare` sets for one universe, with the sequence number.
unfoldable pub prepare : LedDeviceUdpE131 → ℕ → ℕ → List ℕ
unfolding root_layer frame_layer dmx_layer
prepare d this_universe count =
    root_layer d count ++ (frame_layer d this_universe count ++ dmx_layer count)

-- The packet is cleared before it is prepared.
abbrev pub e131_format : LedDeviceUdpE131 → Format
e131_format d = record {
  packet_max = dmx_max;
  first = 126;
  start = λ i number bytes b.
      some (prepare d (d.e131_universe + i / dmx_max) bytes ++ replicate dmx_max 0);
  stop = λ i b. some b;
  size = λ n. 125 + 1 + n;
}

-- The packets that writeBytes is called with, for what was in the packet before.
unfoldable pub write :
    List ℕ → List ColorRgb → LedDeviceUdpE131 → Option (LedDeviceUdpE131 × List (List ℕ))
unfolding send_bytes raw_bytes prepare
write packet led_values d =
    let d' : LedDeviceUdpE131 = record d { e131_seq = (d.e131_seq + 1) % 256 } in
    do
      s ←
          send_bytes (e131_format d') d.led_rgb_count (raw_bytes led_values) 0 d.led_rgb_count
            (record { buffer = packet; packet_bytes = 0; packet_number = 1; sent = [] })
      some (d', s.sent)
