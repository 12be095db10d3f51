-- ===== src/Wasm2c/Wide/Right.antt =====
-- What `f44` of samples/obf_1/obf_w2c.c stores.
use squanchy.Base.{
  ℕ, zero, suc, ◌+◌, ◌-◌, ◌*◌, ◌/◌, ◌%◌, ◌^◌, ◌≤◌, ◌<◌, false, ◌==◌, ◌≡◌, sym, ap, subst, inl, inr,
  ◌∙◌, arith, bit_and, bit_or, u32,
}
use native.Mathlib.Nat.{
  mul_comm, div-le_self, mod-add-div, mod-lt, div-lt_iff_lt-mul, add-mul-div_left,
  div-div-eq-div-mul,
}
use squanchy.Wasm2c.Bits.{power_pos, bit_or-fields, bit_or_comm}
use squanchy.Wasm2c.Format.{sub32}
use squanchy.Wasm2c.Wide.{shl64, shr64, f44_halves}
use squanchy.Wasm2c.Wide.Left.{whole}
use squanchy.Wasm2c.Wide.Powers.{mod-multiple, short_amounts, long_amount, amount-cases}

-- A shift by less than a word, where `m` and `d` are the powers that split it.
right_parts :
    (x y m d w : ℕ) → 0 < m → m * d ≡ w → (x / m + y % m * d) + y / m * w ≡ (x + y * w) / m
right_parts x y m d w pos split =
    let product : y * w ≡ m * (y * d) = ap (λ (t : ℕ). y * t) (sym split) ∙ grind arith in
    let all : (x + y * w) / m ≡ x / m + y * d =
      ap (λ (t : ℕ). (x + t) / m) product ∙ add-mul-div_left x (y * d) pos in
    let parts : y * d ≡ y % m * d + y / m * w =
      ap (λ (t : ℕ). t * d) (sym (mod-add-div y m))
      ∙ (grind arith ∙ ap (λ (t : ℕ). y % m * d + y / m * t) split) in
    omega (arith, all, parts)

quotient_lt : (x k : ℕ) → x < 2 ^ 64 → x / 2 ^ k < 2 ^ 64
quotient_lt x k word = omega (arith, word, div-le_self x (2 ^ k))

-- The low half of such a shift: the two fields side by side, and within a word.
low_fields :
    (p1 p2 p3 : ℕ)
    → p1 < 2 ^ 64
    → 0 < p3
    → p3 < 64
    → (bit_or (shl64 p2 (sub32 64 p3)) (shr64 p1 p3) ≡ p1 / 2 ^ p3 + p2 % 2 ^ p3 * 2 ^ (64 - p3))
      × (p1 / 2 ^ p3 + p2 % 2 ^ p3 * 2 ^ (64 - p3) < 2 ^ 64)
low_fields p1 p2 p3 word pos small =
    let (here, there, split) = short_amounts p3 pos small in
    let d : ℕ = 2 ^ (64 - p3) in
    let turned : d * 2 ^ p3 ≡ 2 ^ 64 = omega (arith, mul_comm d (2 ^ p3), split) in
    let high : (p2 * d) % 2 ^ 64 ≡ p2 % 2 ^ p3 * d =
      ap (λ (t : ℕ). (p2 * d) % t) (sym turned)
      ∙ mod-multiple p2 d (2 ^ p3) (power_pos (64 - p3)) (power_pos p3) in
    let fits : p1 / 2 ^ p3 < d =
      (div-lt_iff_lt-mul (power_pos p3)).1 (subst (λ (t : ℕ). p1 < t) (sym turned) word) in
    let below : p1 / 2 ^ p3 + p2 % 2 ^ p3 * d < d * 2 ^ p3 =
      grind (arith, mod-lt p2 (power_pos p3), fits) in
    (
      rw (here, there, high, bit_or_comm (p2 % 2 ^ p3 * d) (p1 / 2 ^ p3))
          (bit_or-fields (64 - p3) (p1 / 2 ^ p3) (p2 % 2 ^ p3) fits),
      omega (arith, below, turned),
    )

f44_halves-short :
    (p1 p2 p3 : ℕ)
    → p1 < 2 ^ 64
    → 0 < p3
    → p3 < 64
    → whole (bit_or (shl64 p2 (sub32 64 p3)) (shr64 p1 p3), shr64 p2 p3)
      ≡ (p1 + p2 * 2 ^ 64) / 2 ^ p3
f44_halves-short p1 p2 p3 word pos small =
    let (here, there, split) = short_amounts p3 pos small in
    rw ((low_fields p1 p2 p3 word pos small).0, here)
      (right_parts p1 p2 (2 ^ p3) (2 ^ (64 - p3)) (2 ^ 64) (power_pos p3) split)

f44_halves-long :
    (p1 p2 p3 : ℕ)
    → p1 < 2 ^ 64
    → 64 ≤ p3
    → p3 < 128
    → whole (shr64 p2 (u32 (p3 + 4294967232)), 0) ≡ (p1 + p2 * 2 ^ 64) / 2 ^ p3
f44_halves-long p1 p2 p3 word large small =
    let (here, power) = long_amount p3 large small in
    let m : ℕ = 2 ^ (p3 - 64) in
    let turned : 2 ^ 64 * m ≡ 2 ^ p3 = omega (arith, power) in
    let high : (p1 + p2 * 2 ^ 64) / 2 ^ 64 ≡ p2 = omega (arith, word) in
    rw (here, sym turned, sym (div-div-eq-div-mul (p1 + p2 * 2 ^ 64) (2 ^ 64) m), high)
      (omega arith)

-- For every amount below 128 the two halves are the number divided by that power of two.
pub f44_halves-whole :
    (p1 p2 p3 : ℕ)
    → p1 < 2 ^ 64
    → p3 < 128
    → whole (f44_halves p1 p2 p3) ≡ (p1 + p2 * 2 ^ 64) / 2 ^ p3
unfolding f44_halves
f44_halves-whole p1 p2 zero word small = omega (arith, word)
f44_halves-whole p1 p2 (suc k) word small =
    let more : (suc k == 0) ≡ false = ground arith in
    elim (amount-cases (suc k) small) [
      | inl (short, test) ↦
          rw (test, more) (f44_halves-short p1 p2 (suc k) word (omega arith) short)
      | inr (long, test) ↦ rw test (f44_halves-long p1 p2 (suc k) word long small)
    ]

pub f44_halves-bounds :
    (p1 p2 p3 : ℕ)
    → p1 < 2 ^ 64
    → p2 < 2 ^ 64
    → p3 < 128
    → ((f44_halves p1 p2 p3).0 < 2 ^ 64) × ((f44_halves p1 p2 p3).1 < 2 ^ 64)
unfolding f44_halves
f44_halves-bounds p1 p2 zero word word' small = (word, word')
f44_halves-bounds p1 p2 (suc k) word word' small =
    let more : (suc k == 0) ≡ false = ground arith in
    elim (amount-cases (suc k) small) [
      | inl (short, test) ↦
          let (low, below) = low_fields p1 p2 (suc k) word (omega arith) short in
          rw (test, more, low) (below, quotient_lt p2 (bit_and (suc k) 63) word')
      | inr (long, test) ↦
          rw test (quotient_lt p2 (bit_and (u32 (suc k + 4294967232)) 63) word', omega arith)
    ]
