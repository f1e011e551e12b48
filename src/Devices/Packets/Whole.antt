-- ===== src/Devices/Packets/Whole.antt =====
-- From the first byte on: all bytes of the leds, in packets.
use native.Mathlib.Nat.{div-add-mod', mod-lt, lt_of_mul-lt-mul_right, le_of_mul-le-mul_right}
use hyperion_ng_beta.Prelude.{
  ℕ, suc, ◌+◌, ◌-◌, ◌*◌, ◌%◌, ◌/◌, ◌≤◌, ◌<◌, List, [], ◌∷◌, ◌++◌, some, length, take, drop,
  length-append, length-take, take-append-drop, append_nil, ◌≡◌, ◌≢◌, refl, sym, arith,
}
use hyperion_ng_beta.Color.{ColorRgb}
use hyperion_ng_beta.Devices.Packets.{Format, Sending, raw_bytes, send_bytes}
use hyperion_ng_beta.Devices.Packets.Lists.{flatten}
use hyperion_ng_beta.Devices.Packets.Split.{IsFormat, IsFull, smaller}
use hyperion_ng_beta.Devices.Packets.Sent.{AllSent, send_bytes-AllSent}

pub length-raw_bytes : (cs : List ColorRgb) → length (raw_bytes cs) ≡ 3 * length cs
unfolding raw_bytes
length-raw_bytes [] = refl
length-raw_bytes (c ∷ cs) = omega (arith, length-raw_bytes cs)

module _ (f : Format) (header : ℕ → ℕ → List ℕ) (trailer : List ℕ)
    (format : IsFormat f header trailer) where
  send_from :
      (bytes more : List ℕ) (s : Sending)
      → length s.buffer ≡ f.first + f.packet_max + length trailer
      → s.packet_number ≡ 1
      → (t : Sending) × (send_bytes f (length bytes) (bytes ++ more) 0 (length bytes) s ≡ some t)
        × AllSent f header trailer format 0 bytes s.sent t.sent
  unfolding send_bytes
  send_from [] more s room number =
      (s, refl, record { pieces = []; packed = sym (append_nil s.sent); joined = refl; full = tt })
  send_from (x ∷ rest) more s room number =
      send_bytes-AllSent f header trailer format (suc (length rest)) (x ∷ (rest ++ more)) more rest
        x 0 0 (smaller f.packet_max (0 + (suc (length rest) - 0))) [] s (omega arith) format.max_pos
        (omega arith) refl (record { room = room; numbered = number }) refl

  pub send_all :
      (count : ℕ) (raw : List ℕ) (s : Sending)
      → count ≤ length raw
      → length s.buffer ≡ f.first + f.packet_max + length trailer
      → s.packet_number ≡ 1
      → (t : Sending) × (send_bytes f count raw 0 count s ≡ some t)
        × AllSent f header trailer format 0 (take count raw) s.sent t.sent
  send_all count raw s h room number =
      let size : length (take count raw) ≡ count = omega (arith, length-take count raw) in
      let r = send_from (take count raw) (drop count raw) s room number in
      rw (size, take-append-drop count raw) at r

-- The pieces hold the bytes, and the last holds one at least.
pieces_bounds :
    (m : ℕ) (cs : List (List ℕ))
    → 0 < m
    → IsFull m cs
    → (length (flatten cs) ≤ length cs * m) × (length cs * m < length (flatten cs) + m)
pieces_bounds m [] p h = omega arith
pieces_bounds m (c ∷ []) p (pos, le, full, h) = omega (arith, length-append c [])
pieces_bounds m (c ∷ d ∷ cs) p (pos, le, full, h) =
    let whole = full (λ e. cc) in
    omega (arith, whole, length-append c (flatten (d ∷ cs)), pieces_bounds m (d ∷ cs) p h)

above : (d k m r : ℕ) → d * m + r ≤ k * m → 0 < r → d < k
above d k m r h p = lt_of_mul-lt-mul_right m (omega arith)

below : (d k m r : ℕ) → k * m < d * m + r → r ≤ m → k < suc d
below d k m r h p = lt_of_mul-lt-mul_right m (grind arith)

below_next : (d k m r : ℕ) → k * m < d * m + r + m → r < m → k < suc (suc d)
below_next d k m r h p = lt_of_mul-lt-mul_right m (grind arith)

-- A rest that is not empty has a piece of its own.
pub pieces_count :
    (m n : ℕ) (cs : List (List ℕ))
    → 0 < m
    → IsFull m cs
    → length (flatten cs) ≡ n
    → (n % m ≢ 0 → 1 + n / m ≡ length cs) × (n % m ≡ 0 → n / m ≡ length cs)
pieces_count m n cs p h e =
    let (le, lt) = pieces_bounds m cs p h in
    let whole = div-add-mod' n m in
    let k = length cs in
    (
      λ rest.
          let up = above (n / m) k m (n % m) (omega arith) (omega arith) in
          let down = below_next (n / m) k m (n % m) (omega arith) (mod-lt n p) in omega arith,
      λ none_left.
          let down = below (n / m) k m m (omega arith) (omega arith) in
          let up = le_of_mul-le-mul_right {m = n / m} {n = k} {k = m} (omega arith) p in
          omega arith,
    )
