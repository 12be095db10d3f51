-- ===== src/Wasm2c/Wide/Left.antt =====
-- What `f43` of samples/obf_1/obf_w2c.c stores.
use squanchy.Base.{
  ℕ, zero, suc, ◌+◌, ◌-◌, ◌*◌, ◌/◌, ◌%◌, ◌^◌, ◌≤◌, ◌<◌, false, ◌==◌, ◌≡◌, sym, ap, subst, inl, inr,
  ◌∙◌, arith, bit_or, u32,
}
use native.Mathlib.Nat.{mod-add-div, div-lt_iff_lt-mul, add-mul-mod_self_left}
use squanchy.Wasm2c.Bits.{power_pos, bit_or-fields}
use squanchy.Wasm2c.Format.{sub32}
use squanchy.Wasm2c.Wide.{shl64, shr64, f43_halves}
use squanchy.Wasm2c.Wide.Powers.{mod-multiple, mod-halves, short_amounts, long_amount, amount-cases}

-- The number that two halves are.
abbrev pub whole : ℕ × ℕ → ℕ
whole (low, high) = low + high * 2 ^ 64

-- A shift by less than a word, where `m` and `d` are the powers that split it.
left_parts :
    (x y m d w : ℕ)
    → 0 < m
    → 0 < d
    → m * d ≡ w
    → x < w
    → (x * m) % w + (x / d + y % d * m) * w ≡ ((x + y * w) * m) % (w * w)
left_parts x y m d w pos pos' split small =
    let word : 0 < w = omega (arith, small) in
    let low : (x * m) % w ≡ x % d * m =
      ap (λ (t : ℕ). (x * m) % t) (sym split) ∙ mod-multiple x m d pos pos' in
    let long : w * w ≡ m * (d * w) = ap (λ (t : ℕ). t * w) (sym split) ∙ grind arith in
    let all : ((x + y * w) * m) % (w * w) ≡ (x + y % d * w) * m =
      ap (λ (t : ℕ). ((x + y * w) * m) % t) long
      ∙ (mod-multiple (x + y * w) m (d * w) pos (grind (arith, pos', word))
          ∙ ap (λ (t : ℕ). t * m) (mod-halves x y w d small pos')) in
    let parts : x * m ≡ x % d * m + x / d * w =
      ap (λ (t : ℕ). t * m) (sym (mod-add-div x d))
      ∙ (grind arith ∙ ap (λ (t : ℕ). x % d * m + x / d * t) split) in
    rw (low, all) (grind (arith, parts))

f43_halves-short :
    (p1 p2 p3 : ℕ)
    → p1 < 2 ^ 64
    → 0 < p3
    → p3 < 64
    → whole (shl64 p1 p3, bit_or (shr64 p1 (sub32 64 p3)) (shl64 p2 p3))
      ≡ ((p1 + p2 * 2 ^ 64) * 2 ^ p3) % 2 ^ 128
f43_halves-short p1 p2 p3 word pos small =
    let (here, there, split) = short_amounts p3 pos small in
    let high : (p2 * 2 ^ p3) % 2 ^ 64 ≡ p2 % 2 ^ (64 - p3) * 2 ^ p3 =
      ap (λ (t : ℕ). (p2 * 2 ^ p3) % t) (sym split)
      ∙ mod-multiple p2 (2 ^ p3) (2 ^ (64 - p3)) (power_pos p3) (power_pos (64 - p3)) in
    let fits : p1 / 2 ^ (64 - p3) < 2 ^ p3 =
      (div-lt_iff_lt-mul (power_pos (64 - p3))).1 (subst (λ (t : ℕ). p1 < t) (sym split) word) in
    rw (here, there, high, bit_or-fields p3 (p1 / 2 ^ (64 - p3)) (p2 % 2 ^ (64 - p3)) fits)
      (left_parts p1 p2 (2 ^ p3) (2 ^ (64 - p3)) (2 ^ 64) (power_pos p3) (power_pos (64 - p3)) split
        word)

f43_halves-long :
    (p1 p2 p3 : ℕ)
    → p1 < 2 ^ 64
    → 64 ≤ p3
    → p3 < 128
    → whole (0, shl64 p1 (u32 (p3 + 4294967232))) ≡ ((p1 + p2 * 2 ^ 64) * 2 ^ p3) % 2 ^ 128
f43_halves-long p1 p2 p3 word large small =
    let (here, power) = long_amount p3 large small in
    let m : ℕ = 2 ^ (p3 - 64) in
    let shifted : (p1 + p2 * 2 ^ 64) * (m * 2 ^ 64) ≡ (p1 * m + 2 ^ 64 * (p2 * m)) * 2 ^ 64 =
      grind arith in
    rw (here, sym power, shifted)
      (omega arith
        ∙ sym (
            mod-multiple (p1 * m + 2 ^ 64 * (p2 * m)) (2 ^ 64) (2 ^ 64) (omega arith) (omega arith)
            ∙ ap (λ (t : ℕ). t * 2 ^ 64) (add-mul-mod_self_left (p1 * m) (2 ^ 64) (p2 * m))))

-- For every amount below 128 the two halves are the number times that power of two, modulo 2 ^ 128.
pub f43_halves-whole :
    (p1 p2 p3 : ℕ)
    → p1 < 2 ^ 64
    → p2 < 2 ^ 64
    → p3 < 128
    → whole (f43_halves p1 p2 p3) ≡ ((p1 + p2 * 2 ^ 64) * 2 ^ p3) % 2 ^ 128
unfolding f43_halves
f43_halves-whole p1 p2 zero word word' small = omega (arith, word, word')
f43_halves-whole p1 p2 (suc k) word word' small =
    let more : (suc k == 0) ≡ false = ground arith in
    elim (amount-cases (suc k) small) [
      | inl (short, test) ↦
          rw (test, more) (f43_halves-short p1 p2 (suc k) word (omega arith) short)
      | inr (long, test) ↦ rw test (f43_halves-long p1 p2 (suc k) word long small)
    ]

pub f43_halves-low : (p1 p2 p3 : ℕ) → p1 < 2 ^ 64 → (f43_halves p1 p2 p3).0 < 2 ^ 64
unfolding f43_halves
f43_halves-low p1 p2 p3 word = ground (arith, word)
