-- ===== src/Wasm2c/Bits.antt =====
-- Masks and disjoint fields of words as arithmetic, for the code in samples/obf_1/obf_w2c.c.
pub mod Digits
pub mod Masks
use Prim.Native.Nat.{digits, differ, max, min, bit_and-bitwise, bit_or-bitwise, bit_xor-bitwise}
use native.Mathlib.Nat.{max_comm}
use native.Mathlib.Numerals.{unary_clauses}
use squanchy.Base.{
  ℕ, zero, suc, ◌+◌, ◌-◌, ◌*◌, ◌/◌, ◌%◌, ◌^◌, ◌≤◌, ◌<◌, ◌≡◌, refl, bit_and, bit_or, bit_xor, arith,
  ap, ◌∙◌,
}

-- More fuel than binary digits changes nothing.
any_fuel :
    (last : ℕ → ℕ) (f : ℕ → ℕ → ℕ) (n k a b : ℕ)
    → a ≤ n
    → a ≤ k
    → digits last f n a b ≡ digits last f k a b
any_fuel last f zero zero a b p q = refl
any_fuel last f zero (suc k) zero b p q = refl
any_fuel last f (suc n) zero zero b p q = refl
any_fuel last f (suc n) (suc k) zero b p q = refl
any_fuel last f zero k (suc a) b p q = absurd (omega (arith, p))
any_fuel last f (suc n) zero (suc a) b p q = absurd (omega (arith, q))
any_fuel last f (suc n) (suc k) (suc a) b p q =
    rw (any_fuel last f n k (suc a / 2) (b / 2) (omega (arith, p)) (omega (arith, q)))

lowest :
    (last : ℕ → ℕ) (f : ℕ → ℕ → ℕ) (a b : ℕ)
    → digits last f (suc a) (suc a) b
      ≡ 2 * digits last f (suc a / 2) (suc a / 2) (b / 2) + f (suc a % 2) (b % 2)
lowest last f a b =
    omega (arith, any_fuel last f a (suc a / 2) (suc a / 2) (b / 2) (omega arith) (omega arith))

-- The lowest binary digit of each operation.
pub and_low : (a b : ℕ) → bit_and a b ≡ 2 * bit_and (a / 2) (b / 2) + min (a % 2) (b % 2)
and_low zero b = simp bit_and-bitwise (omega arith)
and_low (suc a) b = simp bit_and-bitwise (lowest (λ y. 0) min a b)

pub or_low : (a b : ℕ) → bit_or a b ≡ 2 * bit_or (a / 2) (b / 2) + max (a % 2) (b % 2)
or_low zero b = simp bit_or-bitwise (omega arith)
or_low (suc a) b = simp bit_or-bitwise (lowest (λ y. y) max a b)

pub xor_low : (a b : ℕ) → bit_xor a b ≡ 2 * bit_xor (a / 2) (b / 2) + differ (a % 2) (b % 2)
xor_low zero b = simp bit_xor-bitwise (omega arith)
xor_low (suc a) b = simp bit_xor-bitwise (lowest (λ y. y) differ a b)

pub min-one : (d : ℕ) → d < 2 → min d 1 ≡ d
min-one zero h = refl
min-one (suc zero) h = refl
min-one (suc (suc d)) h = absurd (omega (arith, h))

pub min-zero : (d : ℕ) → d < 2 → min d 0 ≡ 0
min-zero zero h = refl
min-zero (suc zero) h = refl
min-zero (suc (suc d)) h = absurd (omega (arith, h))

differ-one : (d : ℕ) → d < 2 → differ d 1 + d ≡ 1
differ-one zero h = refl
differ-one (suc zero) h = refl
differ-one (suc (suc d)) h = absurd (omega (arith, h))

pub power : (k : ℕ) → 2 ^ suc k ≡ 2 * 2 ^ k
power k = simp unary_clauses (omega arith)

pub power_pos : (k : ℕ) → 0 < 2 ^ k
power_pos zero = omega arith
power_pos (suc k) = omega (arith, power k, power_pos k)

-- A mask of ones that is as wide as the number keeps it.
pub bit_and-ones : (k a : ℕ) → a < 2 ^ k → bit_and a (2 ^ k - 1) ≡ a
bit_and-ones zero zero h = refl
bit_and-ones zero (suc a) h = absurd (omega (arith, h))
bit_and-ones (suc k) a h =
    let half : (2 ^ suc k - 1) / 2 ≡ 2 ^ k - 1 = omega (arith, power k, power_pos k) in
    let odd : (2 ^ suc k - 1) % 2 ≡ 1 = omega (arith, power k, power_pos k) in
    rw (and_low a (2 ^ suc k - 1), half, odd)
      (omega
        (arith, bit_and-ones k (a / 2) (omega (arith, h, power k)), min-one (a % 2) (omega arith)))

pub bit_and-zero : (k a : ℕ) → a < 2 ^ k → bit_and a 0 ≡ 0
bit_and-zero zero zero h = refl
bit_and-zero zero (suc a) h = absurd (omega (arith, h))
bit_and-zero (suc k) a h = omega (
  arith,
  and_low a 0,
  bit_and-zero k (a / 2) (omega (arith, h, power k)),
  min-zero (a % 2) (omega arith),
)

-- Exclusive disjunction with ones takes the number off.
pub bit_xor-ones : (k a : ℕ) → a < 2 ^ k → bit_xor a (2 ^ k - 1) + a ≡ 2 ^ k - 1
bit_xor-ones zero zero h = refl
bit_xor-ones zero (suc a) h = absurd (omega (arith, h))
bit_xor-ones (suc k) a h =
    let half : (2 ^ suc k - 1) / 2 ≡ 2 ^ k - 1 = omega (arith, power k, power_pos k) in
    let odd : (2 ^ suc k - 1) % 2 ≡ 1 = omega (arith, power k, power_pos k) in
    rw (xor_low a (2 ^ suc k - 1), half, odd)
      (omega (
        arith,
        bit_xor-ones k (a / 2) (omega (arith, h, power k)),
        differ-one (a % 2) (omega arith),
        power k,
        power_pos k,
      ))

max-zero : (d : ℕ) → d < 2 → max d 0 ≡ d
max-zero zero h = refl
max-zero (suc zero) h = refl
max-zero (suc (suc d)) h = absurd (omega (arith, h))

pub shifted : (b k : ℕ) → b * 2 ^ suc k ≡ 2 * (b * 2 ^ k)
shifted b k = ap (λ (t : ℕ). b * t) (power k) ∙ grind arith

-- A low field and a high one side by side.
pub bit_or-fields : (k a b : ℕ) → a < 2 ^ k → bit_or a (b * 2 ^ k) ≡ a + b * 2 ^ k
bit_or-fields zero zero b h = simp bit_or-bitwise (omega arith)
bit_or-fields zero (suc a) b h = absurd (omega (arith, h))
bit_or-fields (suc k) a b h =
    let half : b * 2 ^ suc k / 2 ≡ b * 2 ^ k = omega (arith, shifted b k) in
    let even : b * 2 ^ suc k % 2 ≡ 0 = omega (arith, shifted b k) in
    let low : a / 2 < 2 ^ k = omega (arith, h, power k) in
    rw (or_low a (b * 2 ^ suc k), half, even)
      (omega (arith, shifted b k, bit_or-fields k (a / 2) b low, max-zero (a % 2) (omega arith)))

or_comm_within : (n a b : ℕ) → a ≤ n → b ≤ n → bit_or a b ≡ bit_or b a
or_comm_within zero zero zero h h' = refl
or_comm_within zero (suc a) b h h' = absurd (omega (arith, h))
or_comm_within zero a (suc b) h h' = absurd (omega (arith, h'))
or_comm_within (suc n) a b h h' = omega (
  arith,
  or_low a b,
  or_low b a,
  or_comm_within n (a / 2) (b / 2) (omega (arith, h)) (omega (arith, h')),
  max_comm (a % 2) (b % 2),
)

pub bit_or_comm : (a b : ℕ) → bit_or a b ≡ bit_or b a
bit_or_comm a b = or_comm_within (a + b) a b (omega arith) (omega arith)
