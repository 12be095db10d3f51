-- ===== src/Wasm2c/Bits/Masks.antt =====
-- Masks of words as remainders and quotients, for samples/obf_1/obf_w2c.c.
use squanchy.Base.{
  ℕ, zero, suc, ◌+◌, ◌*◌, ◌/◌, ◌%◌, ◌^◌, ◌<◌, ◌≡◌, refl, bit_and, bit_or, bit_xor, arith, ap, ◌∙◌,
}
use squanchy.Wasm2c.Bits.{and_low, bit_xor-ones, bit_and-ones, bit_and-zero, min-one, min-zero}

pub bit_xor-int_max : (a : ℕ) → a < 2 ^ 31 → bit_xor a 2147483647 + a ≡ 2147483647
bit_xor-int_max a h = bit_xor-ones 31 a h

pub bit_and-7 : (a : ℕ) → a < 2 ^ 32 → bit_and a 7 ≡ a % 8
bit_and-7 a h = omega (
  arith,
  and_low a 7,
  and_low (a / 2) 3,
  and_low (a / 2 / 2) 1,
  bit_and-zero 32 (a / 2 / 2 / 2) (omega (arith, h)),
  min-one (a % 2) (omega arith),
  min-one (a / 2 % 2) (omega arith),
  min-one (a / 2 / 2 % 2) (omega arith),
)

pub bit_and-15 : (a : ℕ) → a < 2 ^ 32 → bit_and a 15 ≡ a % 16
bit_and-15 a h =
    omega
      (arith, h, and_low a 15, bit_and-7 (a / 2) (omega (arith, h)), min-one (a % 2) (omega arith))

pub bit_and-63 : (a : ℕ) → a < 2 ^ 32 → bit_and a 63 ≡ a % 64
bit_and-63 a h = omega (
  arith,
  h,
  and_low a 63,
  and_low (a / 2) 31,
  bit_and-15 (a / 2 / 2) (omega (arith, h)),
  min-one (a % 2) (omega arith),
  min-one (a / 2 % 2) (omega arith),
)

pub bit_and-3 : (a : ℕ) → a < 2 ^ 32 → bit_and a 3 ≡ a % 4
bit_and-3 a h = omega (
  arith,
  h,
  and_low a 3,
  and_low (a / 2) 1,
  bit_and-zero 32 (a / 2 / 2) (omega (arith, h)),
  min-one (a % 2) (omega arith),
  min-one (a / 2 % 2) (omega arith),
)

pub bit_and-255 : (a : ℕ) → a < 2 ^ 32 → bit_and a 255 ≡ a % 256
bit_and-255 a h = omega (
  arith,
  h,
  and_low a 255,
  and_low (a / 2) 127,
  bit_and-63 (a / 2 / 2) (omega (arith, h)),
  min-one (a % 2) (omega arith),
  min-one (a / 2 % 2) (omega arith),
)

or_24 : (d : ℕ) → d < 2 → bit_or (d * 4) 24 ≡ 24 + d * 4
or_24 zero h = refl
or_24 (suc zero) h = refl
or_24 (suc (suc d)) h = absurd (omega (arith, h))

-- The third binary digit, on top of 24.
pub bit_or-24 : (a : ℕ) → a < 2 ^ 32 → bit_or (bit_and a 4) 24 ≡ 24 + a / 4 % 2 * 4
bit_or-24 a h =
    let third : bit_and a 4 ≡ a / 4 % 2 * 4 = omega (
      arith,
      h,
      and_low a 4,
      and_low (a / 2) 2,
      and_low (a / 2 / 2) 1,
      bit_and-zero 32 (a / 2 / 2 / 2) (omega (arith, h)),
      min-zero (a % 2) (omega arith),
      min-zero (a / 2 % 2) (omega arith),
      min-one (a / 2 / 2 % 2) (omega arith),
    ) in
    ap (λ (t : ℕ). bit_or t 24) third ∙ or_24 (a / 4 % 2) (omega arith)

-- The mask that rounds a 32-bit number down to a multiple of 4.
pub bit_and-fours : (a : ℕ) → a < 2 ^ 32 → bit_and a 4294967292 ≡ a / 4 * 4
bit_and-fours a h = omega (
  arith,
  and_low a 4294967292,
  and_low (a / 2) 2147483646,
  bit_and-ones 30 (a / 2 / 2) (omega (arith, h)),
  min-zero (a % 2) (omega arith),
  min-zero (a / 2 % 2) (omega arith),
)

-- The bit that tells whether a shift is by a word or more.
pub bit_and-64 : (a : ℕ) → a < 128 → bit_and a 64 ≡ a / 64 * 64
bit_and-64 a h = omega (
  arith,
  h,
  and_low a 64,
  and_low (a / 2) 32,
  and_low (a / 2 / 2) 16,
  and_low (a / 2 / 2 / 2) 8,
  and_low (a / 2 / 2 / 2 / 2) 4,
  and_low (a / 2 / 2 / 2 / 2 / 2) 2,
  bit_and-ones 1 (a / 2 / 2 / 2 / 2 / 2 / 2) (omega (arith, h)),
  min-zero (a % 2) (omega arith),
  min-zero (a / 2 % 2) (omega arith),
  min-zero (a / 2 / 2 % 2) (omega arith),
  min-zero (a / 2 / 2 / 2 % 2) (omega arith),
  min-zero (a / 2 / 2 / 2 / 2 % 2) (omega arith),
  min-zero (a / 2 / 2 / 2 / 2 / 2 % 2) (omega arith),
)

-- The mask that rounds a 32-bit number down to a multiple of 16.
pub bit_and-round : (a : ℕ) → a < 2 ^ 32 → bit_and a 4294967280 ≡ a / 16 * 16
bit_and-round a h = omega (
  arith,
  and_low a 4294967280,
  and_low (a / 2) 2147483640,
  and_low (a / 2 / 2) 1073741820,
  and_low (a / 2 / 2 / 2) 536870910,
  bit_and-ones 28 (a / 2 / 2 / 2 / 2) (omega (arith, h)),
  min-zero (a % 2) (omega arith),
  min-zero (a / 2 % 2) (omega arith),
  min-zero (a / 2 / 2 % 2) (omega arith),
  min-zero (a / 2 / 2 / 2 % 2) (omega arith),
)
