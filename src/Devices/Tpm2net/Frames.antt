-- ===== src/Devices/Tpm2net/Frames.antt =====
-- The packets of libsrc/leddevice/LedDeviceTpm2net.cpp.
use hyperion_ng_beta.Prelude.{
  ℕ, suc, ◌+◌, ◌*◌, ◌/◌, ◌%◌, ◌≤◌, ◌<◌, ◌==◌, List, [], ◌∷◌, ◌++◌, some, length, take, ◌≡◌, ◌≢◌,
  refl, sym, ap, ◌∙◌, arith, append_assoc, length-take, Gives, false,
}
use hyperion_ng_beta.Color.{ColorRgb}
use hyperion_ng_beta.Devices.Packets.{raw_bytes, write_at}
use hyperion_ng_beta.Devices.Packets.Lists.{flatten, write_at-append, cons_of_pos}
use hyperion_ng_beta.Devices.Packets.Split.{IsFormat, IsFull, packets}
use hyperion_ng_beta.Devices.Packets.Whole.{send_all, length-raw_bytes, pieces_count}
use hyperion_ng_beta.Devices.Tpm2net
use hyperion_ng_beta.Devices.Tpm2net.{LedDeviceTpm2net, start_frame, tpm2_format, write}

-- The header of the packet with index `q` and `n` bytes.
abbrev pub tpm2_header : ℕ → ℕ → ℕ → List ℕ
tpm2_header total q n = 0x9c ∷ 0xda ∷ n / 256 % 256 ∷ n % 256 ∷ suc q % 256 ∷ total % 256 ∷ []

abbrev pub end_byte : List ℕ
end_byte = 0x36 ∷ []

start_frame-lem :
    (total q n a b c d e f : ℕ) (rest : List ℕ)
    → start_frame total (suc q) n (a ∷ b ∷ c ∷ d ∷ e ∷ f ∷ rest)
      ≡ some (tpm2_header total q n ++ rest)
unfolding start_frame
start_frame-lem total q n a b c d e f rest =
    rw
      (
        write_at-append [] (b ∷ c ∷ d ∷ e ∷ f ∷ rest) a 0x9c,
        write_at-append (0x9c ∷ []) (c ∷ d ∷ e ∷ f ∷ rest) b 0xda,
        write_at-append (0x9c ∷ 0xda ∷ []) (d ∷ e ∷ f ∷ rest) c (n / 256 % 256),
        write_at-append (0x9c ∷ 0xda ∷ n / 256 % 256 ∷ []) (e ∷ f ∷ rest) d (n % 256),
        write_at-append (0x9c ∷ 0xda ∷ n / 256 % 256 ∷ n % 256 ∷ []) (f ∷ rest) e (suc q % 256),
        write_at-append (0x9c ∷ 0xda ∷ n / 256 % 256 ∷ n % 256 ∷ suc q % 256 ∷ []) rest f
            (total % 256),
      )
      refl

starts_frame :
    (total q n m : ℕ) (b : List ℕ)
    → length b ≡ 6 + m + 1
    → (junk : List ℕ) × (start_frame total (suc q) n b ≡ some (tpm2_header total q n ++ junk))
      × (length junk ≡ m + 1)
starts_frame total q n m (a ∷ b ∷ c ∷ d ∷ e ∷ f ∷ rest) h =
    (rest, start_frame-lem total q n a b c d e f rest, omega arith)
starts_frame total q n m _ h = absurd (omega arith)

stops_frame :
    (xs junk : List ℕ)
    → 1 ≤ length junk
    → (more : List ℕ) × (write_at (xs ++ junk) (length xs) 0x36 ≡ some ((xs ++ end_byte) ++ more))
      × (length more + 1 ≡ length junk)
stops_frame xs junk h =
    let (y, ys, e) = cons_of_pos junk (omega arith) in
    rw e
      (ys, write_at-append xs ys y 0x36 ∙ ap some (sym (append_assoc xs end_byte ys)), omega arith)

tpm2_format-IsFormat :
    (d : LedDeviceTpm2net)
    → 0 < d.tpm2_max
    → IsFormat (tpm2_format d) (tpm2_header d.tpm2_total_packets) end_byte
tpm2_format-IsFormat d h = record {
  max_pos = h;
  header_length = λ q n. refl;
  starts = λ q n b e. starts_frame d.tpm2_total_packets q n d.tpm2_max b e;
  stops = stops_frame;
  sizes = λ n. omega arith;
}

-- The packets for `n` leds of `colors`, in pieces of at most `m` bytes.
pub record IsSplit (n m : ℕ) (colors : List ColorRgb) (total : ℕ) (sent : List (List ℕ))
    : Type 0 where
  pub pieces : List (List ℕ)
  pub framed : sent ≡ packets (tpm2_header total) end_byte 0 pieces
  pub joined : flatten pieces ≡ take (3 * n) (raw_bytes colors)
  pub full : IsFull m pieces
  pub counted : 3 * n % m ≢ 0 → total ≡ length pieces
  pub miscounted : 3 * n % m ≡ 0 → total ≡ suc (length pieces)

-- For a largest packet size above 0, at least as many colors as leds and a buffer of that size and
-- 7 bytes, Tpm2net makes no access outside of an array. It sends the bytes of the leds in their
-- order, cut into pieces that all have the largest size but the last, which may be shorter, each
-- between its header with the size and the number of the packet and the end byte. The count of
-- packets in the headers is that of the packets sent, but one too many if the bytes fill all
-- packets.
pub write-IsSplit :
    (n m : ℕ) (colors : List ColorRgb) (fresh : List ℕ)
    → 0 < m
    → n ≤ length colors
    → length fresh ≡ m + 7
    → (d : LedDeviceTpm2net) × (Tpm2net.init n m ≡ some d)
      × Gives (IsSplit n m colors d.tpm2_total_packets) (write fresh colors d)
unfolding Tpm2net.init write
write-IsSplit n m colors fresh p h room =
    let d : LedDeviceTpm2net = record {
      tpm2_max = m;
      tpm2_byte_count = 3 * n;
      tpm2_total_packets = 1 + 3 * n / m;
    } in
    let size = length-raw_bytes colors in
    let (t, e, r) =
      send_all (tpm2_format d) (tpm2_header d.tpm2_total_packets) end_byte
        (tpm2_format-IsFormat d p) (3 * n) (raw_bytes colors)
        (record { buffer = fresh; packet_bytes = 0; packet_number = 1; sent = [] })
        (omega (arith, size)) (omega arith) refl in
    let count : length (flatten r.pieces) ≡ 3 * n =
      ap (λ (l : List ℕ). length l) r.joined
      ∙ omega (arith, length-take (3 * n) (raw_bytes colors), size) in
    let (some_rest, no_rest) = pieces_count m (3 * n) r.pieces p r.full count in
    let zero_max : (m == 0) ≡ false = ground arith in
    (
      d,
      rw zero_max refl,
      (
        t.sent,
        rw e refl,
        record {
          pieces = r.pieces;
          framed = r.packed;
          joined = r.joined;
          full = r.full;
          counted = some_rest;
          miscounted = λ z. omega (arith, no_rest z);
        },
      ),
    )
