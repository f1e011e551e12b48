-- ===== src/Resampler/Sizes.antt =====
-- The sizes of the picture that libsrc/utils/ImageResampler.cpp makes, and the places it takes pixels
-- from.
use native.Mathlib.Nat.{div-mul-le_self}
use hyperion_ng_beta.Prelude.{
  ℕ, pos, ◌+◌, ◌-◌, ◌*◌, ◌/◌, ◌≤◌, ◌<◌, ◌+ℤ◌, ◌-ℤ◌, ◌≡◌, refl, arith, Bool-cases, inl, inr, ◌==◌,
}
use hyperion_ng_beta.Resampler.{output_size}

-- One pixel of `d`, from the middle of the first `d` on, as long as there are some.
abbrev pub samples_of : ℕ → ℕ → ℕ → ℕ → ℕ
samples_of size low high d = (size - low - high - d / 2 + d - 1) / d

numerator :
    (size low high d : ℕ)
    → 0 < d
    → low + high + d / 2 ≤ size
    → pos size -ℤ pos low -ℤ pos high -ℤ pos (d / 2) +ℤ pos d -ℤ pos 1
      ≡ pos (size - low - high - d / 2 + d - 1)
unfolding ◌-ℤ◌ ◌+ℤ◌
numerator size low high d p h = ground arith

pub output_size-samples_of :
    (size low high d : ℕ)
    → 0 < d
    → low + high + d / 2 ≤ size
    → output_size size low high d ≡ pos (samples_of size low high d)
unfolding output_size
output_size-samples_of size low high d p h = rw (numerator size low high d p h) refl

next_column : (x q d : ℕ) → x < q → x * d + d ≤ q * d
next_column x q d h = grind arith

-- All places are in front of the cropped part.
pub samples_of-inside :
    (size low high d x : ℕ)
    → 0 < d
    → low + high + d / 2 ≤ size
    → x < samples_of size low high d
    → low + d / 2 + x * d < size
samples_of-inside size low high d x p h l =
    let n = size - low - high - d / 2 + d - 1 in
    let upto = next_column x (samples_of size low high d) d l in
    omega (arith, upto, div-mul-le_self n d)

column_le : (x d : ℕ) → 0 < d → x ≤ x * d
column_le x d h = grind arith

pub samples_of-le :
    (size low high d : ℕ) → 0 < d → low + high + d / 2 ≤ size → samples_of size low high d ≤ size
samples_of-le size low high d p h =
    let q = samples_of size low high d in
    elim (Bool-cases (q == 0)) [
      | inl e ↦ (let none_there : q ≡ 0 = ground arith in omega (arith, none_there))
      | inr e ↦
          let some_there : 0 < q = ground arith in
          omega (
            arith,
            samples_of-inside size low high d (q - 1) p h (omega (arith, some_there)),
            column_le (q - 1) d p,
            some_there,
          )
    ]
