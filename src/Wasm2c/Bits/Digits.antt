-- ===== src/Wasm2c/Bits/Digits.antt =====
-- Single binary digits of a bitwise operation, for the word test in samples/obf_1/obf_w2c.c.
use Prim.Native.Nat.{max, min, differ}
use native.Mathlib.Nat.{div-div-eq-div-mul}
use squanchy.Base.{
  ℕ, zero, suc, ◌+◌, ◌*◌, ◌/◌, ◌%◌, ◌^◌, ◌<◌, ◌≡◌, refl, sym, ap, ap₂, ◌∙◌, arith, bit_and, bit_or,
  bit_xor,
}
use squanchy.Wasm2c.Bits.{and_low, or_low, xor_low, power}

-- An operation `f` that works digit by digit as `g` does.
module _ (f g : ℕ → ℕ → ℕ) (low : (a b : ℕ) → f a b ≡ 2 * f (a / 2) (b / 2) + g (a % 2) (b % 2))
    (digit : (a b : ℕ) → g (a % 2) (b % 2) < 2) where
  operation-div : (k a b : ℕ) → f a b / 2 ^ k ≡ f (a / 2 ^ k) (b / 2 ^ k)
  operation-div zero a b =
      let whole : (x : ℕ) → x / 2 ^ 0 ≡ x = λ x. omega arith in
      whole (f a b) ∙ sym (ap₂ f (whole a) (whole b))
  operation-div (suc k) a b =
      let half : f a b / 2 ≡ f (a / 2) (b / 2) = omega (arith, low a b, digit a b) in
      let shift : (x : ℕ) → x / 2 / 2 ^ k ≡ x / 2 ^ suc k =
        λ x. div-div-eq-div-mul x 2 (2 ^ k) ∙ ap (λ (t : ℕ). x / t) (sym (power k)) in
      sym (shift (f a b))
      ∙ (ap (λ (t : ℕ). t / 2 ^ k) half
          ∙ (operation-div k (a / 2) (b / 2) ∙ ap₂ f (shift a) (shift b)))

  operation-digit : (k a b : ℕ) → f a b / 2 ^ k % 2 ≡ g (a / 2 ^ k % 2) (b / 2 ^ k % 2)
  operation-digit k a b =
      ap (λ (t : ℕ). t % 2) (operation-div k a b)
      ∙ omega (arith, low (a / 2 ^ k) (b / 2 ^ k), digit (a / 2 ^ k) (b / 2 ^ k))

by_digits :
    (g : ℕ → ℕ → ℕ)
    → g 0 0 < 2
    → g 0 1 < 2
    → g 1 0 < 2
    → g 1 1 < 2
    → (c d : ℕ) → c < 2
    → d < 2
    → g c d < 2
by_digits g a b c d zero zero p q = a
by_digits g a b c d zero (suc zero) p q = b
by_digits g a b c d (suc zero) zero p q = c
by_digits g a b c d (suc zero) (suc zero) p q = d
by_digits g a b c d (suc (suc x)) y p q = absurd (omega arith)
by_digits g a b c d x (suc (suc y)) p q = absurd (omega arith)

pub and-digit : (k a b : ℕ) → bit_and a b / 2 ^ k % 2 ≡ min (a / 2 ^ k % 2) (b / 2 ^ k % 2)
and-digit = operation-digit bit_and min and_low λ a b.
    by_digits min (omega arith) (omega arith) (omega arith) (omega arith) (a % 2) (b % 2)
      (omega arith) (omega arith)

pub or-digit : (k a b : ℕ) → bit_or a b / 2 ^ k % 2 ≡ max (a / 2 ^ k % 2) (b / 2 ^ k % 2)
or-digit = operation-digit bit_or max or_low λ a b.
    by_digits max (omega arith) (omega arith) (omega arith) (omega arith) (a % 2) (b % 2)
      (omega arith) (omega arith)

pub xor-div : (k a b : ℕ) → bit_xor a b / 2 ^ k ≡ bit_xor (a / 2 ^ k) (b / 2 ^ k)
xor-div = operation-div bit_xor differ xor_low λ a b.
    by_digits differ (omega arith) (omega arith) (omega arith) (omega arith) (a % 2) (b % 2)
      (omega arith) (omega arith)

differ_self : (c : ℕ) → c < 2 → differ c c ≡ 0
differ_self zero h = refl
differ_self (suc zero) h = refl
differ_self (suc (suc c)) h = absurd (omega arith)

xor_even : (a b : ℕ) → a % 2 ≡ b % 2 → bit_xor a b ≡ 2 * bit_xor (a / 2) (b / 2)
xor_even a b same = omega (
  arith,
  xor_low a b,
  ap (λ (d : ℕ). differ (a % 2) d) (sym same) ∙ differ_self (a % 2) (omega arith),
)

xor_sixteen :
    (a b : ℕ) → a % 16 ≡ b % 16 → bit_xor a b ≡ 16 * bit_xor (a / 2 / 2 / 2 / 2) (b / 2 / 2 / 2 / 2)
xor_sixteen a b same = omega (
  arith,
  xor_even a b (omega arith),
  xor_even (a / 2) (b / 2) (omega arith),
  xor_even (a / 2 / 2) (b / 2 / 2) (omega arith),
  xor_even (a / 2 / 2 / 2) (b / 2 / 2 / 2) (omega arith),
)

-- Numbers that agree in their lowest byte.
pub xor_same_byte : (a b : ℕ) → a % 256 ≡ b % 256 → bit_xor a b % 256 ≡ 0
xor_same_byte a b same = omega (
  arith,
  xor_sixteen a b (omega arith),
  xor_sixteen (a / 2 / 2 / 2 / 2) (b / 2 / 2 / 2 / 2) (omega arith),
)

pub xor_bound : (k a b : ℕ) → a / 2 ^ k ≡ 0 → b / 2 ^ k ≡ 0 → bit_xor a b / 2 ^ k ≡ 0
xor_bound k a b small small' = xor-div k a b ∙ ap₂ bit_xor small small'
