-- ===== src/Devices/Packets.antt =====
-- The loop of `write` in libsrc/leddevice/LedDeviceTpm2net.cpp and LedDeviceUdpE131.cpp, which splits
-- the bytes of the leds into packets. The two are the same but for what stands around the bytes of a
-- packet; `none` is an access outside of an array.
use hyperion_ng_beta.Prelude.{
  ℕ, zero, suc, ◌+◌, ◌-◌, ◌%◌, ◌==◌, ltb, leb, ◌||◌, if◌then◌else◌, List, [], ◌∷◌, ◌++◌, Option,
  none, some, ◌>>=◌, get_elem?, length, set, take,
}
use hyperion_ng_beta.Color.{ColorRgb}
pub mod Lists
pub mod Split
pub mod Steps
pub mod Sent
pub mod Whole

-- The bytes of a vector of colors.
unfoldable pub raw_bytes : List ColorRgb → List ℕ
raw_bytes [] = []
raw_bytes (c ∷ cs) = c.red ∷ c.green ∷ c.blue ∷ raw_bytes cs

-- A write to an array.
unfoldable pub write_at : List ℕ → ℕ → ℕ → Option (List ℕ)
write_at b i v = if ltb i (length b) then some (set b i v) else none

-- What the devices do differently: `start` writes what stands before the bytes, for the index of the
-- next byte, the number of the packet and its bytes; `stop` writes what stands behind them.
pub record Format : Type 0 where
  pub packet_max : ℕ
  pub first : ℕ
  pub start : ℕ → ℕ → ℕ → List ℕ → Option (List ℕ)
  pub stop : ℕ → List ℕ → Option (List ℕ)
  pub size : ℕ → ℕ

-- The variables of the loop, and the packets that writeBytes was called with.
pub record Sending : Type 0 where
  pub buffer : List ℕ
  pub packet_bytes : ℕ
  pub packet_number : ℕ
  pub sent : List (List ℕ)

module _ (f : Format) (count : ℕ) (raw : List ℕ) where
  unfoldable pub start_packet : ℕ → Sending → Option Sending
  start_packet i s =
      let bytes = if ltb (count - i) f.packet_max then count % f.packet_max else f.packet_max in
      do
        b ← f.start i s.packet_number bytes s.buffer
        some (record s { buffer = b; packet_bytes = bytes; packet_number = s.packet_number + 1 })

  unfoldable pub end_packet : ℕ → Sending → Option Sending
  end_packet i s = do
    b ← f.stop (f.first + i % f.packet_max + 1) s.buffer
    if leb (f.size s.packet_bytes) (length b)
        then some (record s { buffer = b; sent = s.sent ++ take (f.size s.packet_bytes) b ∷ [] })
        else none

  unfoldable pub put_byte : ℕ → Sending → Option Sending
  unfolding write_at
  put_byte i s = do
    x ← get_elem? raw i
    b ← write_at s.buffer (f.first + i % f.packet_max) x
    some (record s { buffer = b })

  -- The body of the loop.
  unfoldable pub send_byte : ℕ → Sending → Option Sending
  unfolding start_packet end_packet put_byte
  send_byte i s = do
    s1 ← if i % f.packet_max == 0 then start_packet i s else some s
    s2 ← put_byte i s1
    if (i + 1 == count) || (i % f.packet_max + 1 == f.packet_max) then end_packet i s2 else some s2

  -- `n` rounds from byte `i` on.
  unfoldable pub send_bytes : ℕ → ℕ → Sending → Option Sending
  unfolding send_byte
  send_bytes i zero s = some s
  send_bytes i (suc n) s = do s' ← send_byte i s; send_bytes (i + 1) n s'
