-- ===== src/Wasm2c/Wide/Powers.antt =====
-- Powers of two that split a word of samples/obf_1/obf_w2c.c, for the shifts of 128-bit numbers.
use squanchy.Base.{
  ℕ, zero, suc, ◌+◌, ◌-◌, ◌*◌, ◌/◌, ◌%◌, ◌^◌, ◌≤◌, ◌<◌, ◌≡◌, sym, ap, ◌∙◌, arith, bit_and, u32,
  ◌==◌, true, false, ◌⊎◌,
}
use native.Mathlib.Nat.{mod-add-div, mod-lt, mod-eq_of_lt, add-mul-mod_self_left}
use squanchy.Wasm2c.Bits.{power}
use squanchy.Wasm2c.Bits.Masks.{bit_and-63, bit_and-64}
use squanchy.Wasm2c.Format.{sub32}

pub split_power : (k j : ℕ) → 2 ^ k * 2 ^ j ≡ 2 ^ (k + j)
split_power zero j = let same : 0 + j ≡ j = omega arith in omega (arith, ap (λ (t : ℕ). 2 ^ t) same)
split_power (suc k) j =
    let same : suc k + j ≡ suc (k + j) = omega arith in
    ap (λ (t : ℕ). t * 2 ^ j) (power k)
    ∙ (grind (arith, split_power k j) ∙ (sym (power (k + j)) ∙ ap (λ (t : ℕ). 2 ^ t) (sym same)))

-- A remainder of a multiple.
pub mod-multiple : (x m d : ℕ) → 0 < m → 0 < d → (x * m) % (m * d) ≡ x % d * m
mod-multiple x m d pos pos' =
    let whole : x * m ≡ x % d * m + m * d * (x / d) =
      ap (λ (t : ℕ). t * m) (sym (mod-add-div x d)) ∙ grind arith in
    let small : x % d * m < m * d = grind (arith, mod-lt x pos', pos) in
    ap (λ (t : ℕ). t % (m * d)) whole
    ∙ (add-mul-mod_self_left (x % d * m) (m * d) (x / d) ∙ mod-eq_of_lt small)

-- A remainder that leaves the low half alone.
pub mod-halves : (x y w d : ℕ) → x < w → 0 < d → (x + y * w) % (d * w) ≡ x + y % d * w
mod-halves x y w d small pos =
    let whole : x + y * w ≡ x + y % d * w + d * w * (y / d) =
      ap (λ (t : ℕ). x + t * w) (sym (mod-add-div y d)) ∙ grind arith in
    let below : x + y % d * w < d * w = grind (arith, mod-lt y pos, small) in
    ap (λ (t : ℕ). t % (d * w)) whole
    ∙ (add-mul-mod_self_left (x + y % d * w) (d * w) (y / d) ∙ mod-eq_of_lt below)

-- The amounts of a shift by less than a word, which split the word.
pub short_amounts :
    (k : ℕ)
    → 0 < k
    → k < 64
    → (bit_and k 63 ≡ k) × (bit_and (sub32 64 k) 63 ≡ 64 - k) × (2 ^ k * 2 ^ (64 - k) ≡ 2 ^ 64)
short_amounts k pos small =
    let other : sub32 64 k ≡ 64 - k = omega (arith, small) in
    let sum : k + (64 - k) ≡ 64 = omega (arith, small) in
    (
      omega (arith, bit_and-63 k (omega (arith, small)), small),
      ap (λ (t : ℕ). bit_and t 63) other
          ∙ omega (arith, bit_and-63 (64 - k) (omega (arith, small)), small, pos),
      split_power k (64 - k) ∙ ap (λ (t : ℕ). 2 ^ t) sum,
    )

-- The amount of a shift by a word or more, and its power.
pub long_amount :
    (k : ℕ)
    → 64 ≤ k
    → k < 128
    → (bit_and (u32 (k + 4294967232)) 63 ≡ k - 64) × (2 ^ (k - 64) * 2 ^ 64 ≡ 2 ^ k)
long_amount k large small =
    let other : u32 (k + 4294967232) ≡ k - 64 = omega (arith, large, small) in
    let sum : k - 64 + 64 ≡ k = omega (arith, large) in
    (
      ap (λ (t : ℕ). bit_and t 63) other
          ∙ omega (arith, bit_and-63 (k - 64) (omega (arith, small)), small, large),
      split_power (k - 64) 64 ∙ ap (λ (t : ℕ). 2 ^ t) sum,
    )

-- Which of the two it is, as the code tests it.
pub amount-cases :
    (k : ℕ)
    → k < 128
    → ((k < 64) × ((bit_and k 64 == 0) ≡ true)) ⊎ ((64 ≤ k) × ((bit_and k 64 == 0) ≡ false))
amount-cases k small = ground (arith, bit_and-64 k small)
