-- ===== src/Devices/Sk6812Spi/Coding.antt =====
-- What the led strip of libsrc/leddevice/LedDeviceSk6812SPI.cpp reads.
use hyperion_ng_beta.Prelude.{
  ℕ, zero, suc, ◌+◌, ◌*◌, ◌/◌, ◌%◌, ◌<◌, ◌==◌, if◌then◌else◌, List, [], ◌∷◌, ◌++◌, some, length,
  length-append, append_assoc, ◌≡◌, refl, sym, ap, ◌∙◌, arith,
}
use hyperion_ng_beta.Devices.Packets.Lists.{write_at-append}
use hyperion_ng_beta.Devices.Sk6812Spi.{bitpair_to_byte, put_pairs}

-- The bits that a byte on the bus stands for, and the number that the bytes give.
unfoldable pub byte_to_bitpair : ℕ → ℕ
byte_to_bitpair b =
    if b == 0b10001000 then 0 else if b == 0b10001100 then 1 else if b == 0b11001000 then 2 else 3

unfoldable pub read_pairs : ℕ → List ℕ → ℕ
read_pairs acc [] = acc
read_pairs acc (b ∷ bs) = read_pairs (acc * 4 + byte_to_bitpair b) bs

byte_to_bitpair-bitpair_to_byte : (p : ℕ) → p < 4 → byte_to_bitpair (bitpair_to_byte p) ≡ p
unfolding byte_to_bitpair bitpair_to_byte
byte_to_bitpair-bitpair_to_byte p h = ground arith

-- The bytes of `n` pairs of bits.
pub pairs : ℕ → ℕ → List ℕ
pairs zero bits = []
pairs (suc n) bits = pairs n (bits / 4) ++ bitpair_to_byte (bits % 4) ∷ []

abbrev pub power : ℕ → ℕ
power zero = 1
power (suc n) = 4 * power n

read_pairs-append :
    (acc b : ℕ) (xs : List ℕ)
    → read_pairs acc (xs ++ b ∷ []) ≡ read_pairs acc xs * 4 + byte_to_bitpair b
unfolding read_pairs
read_pairs-append acc b [] = refl
read_pairs-append acc b (x ∷ xs) = read_pairs-append (acc * 4 + byte_to_bitpair x) b xs

pair_step : (a p r b t : ℕ) → r ≡ a * p + b / 4 → t ≡ b % 4 → r * 4 + t ≡ a * (4 * p) + b
pair_step a p r b t h k = grind arith

pub read_pairs-pairs :
    (n acc bits : ℕ) → bits < power n → read_pairs acc (pairs n bits) ≡ acc * power n + bits
unfolding pairs
read_pairs-pairs zero acc bits h = unfold read_pairs in (omega arith)
read_pairs-pairs (suc n) acc bits h =
    let ih = read_pairs-pairs n acc (bits / 4) (omega arith) in
    let last = byte_to_bitpair-bitpair_to_byte (bits % 4) (omega arith) in
    read_pairs-append acc (bitpair_to_byte (bits % 4)) (pairs n (bits / 4))
    ∙ pair_step acc (power n) _ bits _ ih last

snoc_of_length :
    (n : ℕ) (l : List ℕ)
    → length l ≡ suc n
    → (xs : List ℕ) × (y : ℕ) × (l ≡ xs ++ y ∷ []) × (length xs ≡ n)
snoc_of_length n [] h = absurd (omega arith)
snoc_of_length zero (x ∷ []) h = ([], x, refl, refl)
snoc_of_length zero (x ∷ y ∷ l) h = absurd (omega arith)
snoc_of_length (suc n) (x ∷ l) h =
    let (xs, y, e, s) = snoc_of_length n l (omega arith) in
    (x ∷ xs, y, ap (λ m. x ∷ m) e, omega arith)

pub put_pairs-pairs :
    (n bits : ℕ) (before seg after : List ℕ)
    → length seg ≡ n
    → put_pairs (length before) n bits (before ++ (seg ++ after))
      ≡ some (before ++ (pairs n bits ++ after))
unfolding put_pairs pairs
put_pairs-pairs zero bits before [] after h = refl
put_pairs-pairs zero bits before (x ∷ seg) after h = absurd (omega arith)
put_pairs-pairs (suc n) bits before seg after h =
    let (xs, y, e, s) = snoc_of_length n seg h in
    let v = bitpair_to_byte (bits % 4) in
    let at : length before + n ≡ length (before ++ xs) = omega (arith, length-append before xs) in
    let spot : before ++ ((xs ++ y ∷ []) ++ after) ≡ (before ++ xs) ++ y ∷ after =
      simp append_assoc in
    let left : (before ++ xs) ++ v ∷ after ≡ before ++ (xs ++ v ∷ after) =
      append_assoc before xs (v ∷ after) in
    rw (e, spot, at, write_at-append (before ++ xs) after y v, left)
      (put_pairs-pairs n (bits / 4) before xs (v ∷ after) s
        ∙ ap (λ l. some (before ++ l)) (sym (append_assoc (pairs n (bits / 4)) (v ∷ []) after)))

pub length-pairs : (n bits : ℕ) → length (pairs n bits) ≡ n
unfolding pairs
length-pairs zero bits = refl
length-pairs (suc n) bits =
    length-append (pairs n (bits / 4)) _ ∙ omega (arith, length-pairs n (bits / 4))
