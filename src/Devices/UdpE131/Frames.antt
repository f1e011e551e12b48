-- ===== src/Devices/UdpE131/Frames.antt =====
-- The packets of libsrc/leddevice/LedDeviceUdpE131.cpp.
use hyperion_ng_beta.Prelude.{
  ℕ, ◌+◌, ◌-◌, ◌*◌, ◌/◌, ◌%◌, ◌≤◌, List, [], ◌∷◌, ◌++◌, some, length, length-append, length-take,
  length-replicate, take, replicate, append_nil, ◌≡◌, refl, sym, ap, arith, Gives,
}
use hyperion_ng_beta.Color.{ColorRgb}
use hyperion_ng_beta.Devices.Packets.{raw_bytes}
use hyperion_ng_beta.Devices.Packets.Lists.{flatten}
use hyperion_ng_beta.Devices.Packets.Split.{IsFormat, IsFull, packets}
use hyperion_ng_beta.Devices.Packets.Whole.{send_all, length-raw_bytes}
use hyperion_ng_beta.Devices.UdpE131.{
  LedDeviceUdpE131, dmx_max, prepare, packet_field, htons, htonl, e131_format, write, root_layer,
  frame_layer, dmx_layer,
}

length-packet_field : (n : ℕ) (bytes : List ℕ) → length (packet_field n bytes) ≡ n
unfolding packet_field
length-packet_field n bytes = omega (
  arith,
  length-append (take n bytes) (replicate (n - length (take n bytes)) 0),
  length-take n bytes,
  length-replicate (n - length (take n bytes)) (let z : ℕ = 0 in z),
)

length-field_append :
    (n : ℕ) (bytes more : List ℕ) → length (packet_field n bytes ++ more) ≡ n + length more
length-field_append n bytes more =
    omega (arith, length-append (packet_field n bytes) more, length-packet_field n bytes)

length-prepare : (d : LedDeviceUdpE131) (u n : ℕ) → length (prepare d u n) ≡ 126
unfolding prepare htons htonl
length-prepare d u n = omega (
  arith,
  length-append (root_layer d n) (frame_layer d u n ++ dmx_layer n),
  length-append (frame_layer d u n) (dmx_layer n),
  length-field_append 63 d.e131_source_name (0 ∷ 100 ∷ 0 ∷ 0 ∷ d.e131_seq ∷ 0 ∷ htons u),
  length-packet_field 16 d.e131_cid,
)

row_div : (q : ℕ) → q * dmx_max / dmx_max ≡ q
row_div q = omega arith

-- The bytes of a packet, in front of its channels, for the universe with index `q`.
abbrev pub e131_header : LedDeviceUdpE131 → ℕ → ℕ → List ℕ
e131_header d q n = prepare d (d.e131_universe + q) n

e131_format-IsFormat : (d : LedDeviceUdpE131) → IsFormat (e131_format d) (e131_header d) []
e131_format-IsFormat d = record {
  max_pos = omega arith;
  header_length = λ q n. length-prepare d (d.e131_universe + q) n;
  starts = λ q n b e. (replicate dmx_max 0, rw (row_div q) refl, refl);
  stops = λ xs junk h. (junk, ap (λ l. some (l ++ junk)) (sym (append_nil xs)), omega arith);
  sizes = λ n. omega arith;
}

-- The packets for the bytes of `colors`, in pieces of at most 512 for one universe after the other.
pub record IsSent (d : LedDeviceUdpE131) (colors : List ColorRgb) (sent : List (List ℕ))
    : Type 0 where
  pub pieces : List (List ℕ)
  pub framed : sent ≡ packets (e131_header d) [] 0 pieces
  pub joined : flatten pieces ≡ take d.led_rgb_count (raw_bytes colors)
  pub full : IsFull dmx_max pieces

-- For at least as many colors as leds, write of the E1.31 device makes no access outside of an
-- array, counts the sequence number up modulo 256, and sends the bytes of the leds in their order,
-- cut into pieces of 512 but for the last, which may be shorter, each behind the header of its
-- size for the next universe.
pub write-IsSent :
    (d : LedDeviceUdpE131) (colors : List ColorRgb) (packet : List ℕ)
    → d.led_rgb_count ≤ 3 * length colors
    → length packet ≡ 638
    → Gives
        (λ r. (r.0 ≡ record d { e131_seq = (d.e131_seq + 1) % 256 }) × IsSent r.0 colors r.1)
        (write packet colors d)
unfolding write
write-IsSent d colors packet h room =
    let d' : LedDeviceUdpE131 = record d { e131_seq = (d.e131_seq + 1) % 256 } in
    let (t, e, r) =
      send_all (e131_format d') (e131_header d') [] (e131_format-IsFormat d') d.led_rgb_count
        (raw_bytes colors)
        (record { buffer = packet; packet_bytes = 0; packet_number = 1; sent = [] })
        (omega (arith, length-raw_bytes colors)) (omega arith) refl in
    (
      (d', t.sent),
      rw e refl,
      (refl, record { pieces = r.pieces; framed = r.packed; joined = r.joined; full = r.full }),
    )
