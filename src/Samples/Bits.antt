-- ===== src/Samples/Bits.antt =====
-- Disjunction, exclusive disjunction and conjunction of numbers, related as sums.
use Prim.Native.Nat.{bit_and-bitwise, bit_or-bitwise, bit_xor-bitwise, digits, differ, max, min}
use native.Mathlib.Numerals.{unary_clauses}
use squanchy.Base.{
  ℕ, zero, suc, ◌+◌, ◌*◌, ◌/◌, ◌%◌, ◌^◌, ◌<◌, ◌≡◌, refl, bit_and, bit_or, bit_xor, arith,
}

digit_sum : (x y : ℕ) → x < 2 → y < 2 → max x y ≡ differ x y + min x y
digit_sum zero zero p q = refl
digit_sum zero (suc zero) p q = refl
digit_sum (suc zero) zero p q = refl
digit_sum (suc zero) (suc zero) p q = refl
digit_sum (suc (suc x)) y p q = absurd (omega (arith, p))
digit_sum zero (suc (suc y)) p q = absurd (omega (arith, q))
digit_sum (suc zero) (suc (suc y)) p q = absurd (omega (arith, q))

digits-sum :
    (n a b : ℕ)
    → digits (λ b. b) max n a b ≡ digits (λ b. b) differ n a b + digits (λ b. zero) min n a b
digits-sum zero a b = omega arith
digits-sum (suc n) zero b = omega arith
digits-sum (suc n) (suc a) b = omega (
  arith,
  digits-sum n (suc a / 2) (b / 2),
  digit_sum (suc a % 2) (b % 2) (omega arith) (omega arith),
)

-- Every binary digit of a disjunction is in the exclusive one or in the conjunction.
pub bit_or-sum : (a b : ℕ) → bit_or a b ≡ bit_xor a b + bit_and a b
bit_or-sum a b =
    omega (arith, digits-sum a a b, bit_or-bitwise a b, bit_xor-bitwise a b, bit_and-bitwise a b)

power_suc : (w : ℕ) → 2 ^ suc w ≡ 2 * 2 ^ w
power_suc w = simp unary_clauses (omega arith)

max-digit : (x y : ℕ) → x < 2 → y < 2 → max x y < 2
max-digit x y p q = omega (arith, p, q)

digits-lt : (n w a b : ℕ) → a < 2 ^ w → b < 2 ^ w → digits (λ b. b) max n a b < 2 ^ w
digits-lt zero w a b p q = q
digits-lt (suc n) w zero b p q = q
digits-lt (suc n) zero (suc a) b p q = absurd (omega (arith, p))
digits-lt (suc n) (suc w) (suc a) b p q = omega (
  arith,
  power_suc w,
  p,
  q,
  digits-lt n w (suc a / 2) (b / 2) (omega (arith, power_suc w, p)) (omega (arith, power_suc w, q)),
  max-digit (suc a % 2) (b % 2) (omega arith) (omega arith),
)

pub bit_or-lt : (w a b : ℕ) → a < 2 ^ w → b < 2 ^ w → bit_or a b < 2 ^ w
bit_or-lt w a b p q = omega (arith, digits-lt a w a b p q, bit_or-bitwise a b)
