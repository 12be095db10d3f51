-- ===== src/Wasm2c/Utf8/Bytes.antt =====
-- The bytes that `f41` of samples/obf_1/obf_w2c.c stores, and where they stand.
use squanchy.Base.{
  ℕ, zero, suc, ◌+◌, ◌*◌, ◌/◌, ◌%◌, ◌<◌, ◌^◌, List, [], ◌∷◌, some, inl, inr, ◌≡◌, refl, sym, ap,
  ◌∙◌, arith, length, get_elem?, if◌then◌else◌, ◌==◌, bit_and, bit_or, Bool-cases,
}
use native.Mathlib.Nat.{div-div-eq-div-mul}
use squanchy.Wasm2c.{ok, write_at}
use squanchy.Wasm2c.Arrays.{get_elem?-write_at, get_elem?-within}
use squanchy.Wasm2c.Bits.{and_low, power, bit_and-ones, bit_or-fields, shifted, min-zero}
use squanchy.Wasm2c.Bits.Masks.{bit_and-63}
use squanchy.Wasm2c.Memory.{to_bytes, store}
use squanchy.Wasm2c.Memory.Laws.{store-ok}
use squanchy.Wasm2c.Utf8.{store_bytes}

-- A byte behind the first one, of six digits.
pub trail_byte : (x : ℕ) → x < 2 ^ 32 → bit_or (bit_and x 63) 128 ≡ 128 + x % 64
trail_byte x h =
    ap (λ (t : ℕ). bit_or t 128) (bit_and-63 x h)
    ∙ (bit_or-fields 7 (x % 64) 1 (omega arith) ∙ omega arith)

pub lead_two : (x : ℕ) → x < 32 → bit_or x 192 ≡ 192 + x
lead_two x h = bit_or-fields 6 x 3 (omega arith) ∙ omega arith

pub lead_three : (x : ℕ) → x < 16 → bit_or x 224 ≡ 224 + x
lead_three x h = bit_or-fields 5 x 7 (omega arith) ∙ omega arith

pub lead_four : (x : ℕ) → x < 8 → bit_or x 240 ≡ 240 + x
lead_four x h = bit_or-fields 4 x 15 (omega arith) ∙ omega arith

-- A mask whose lowest `k` digits are 0.
high_mask : (k a m : ℕ) → bit_and a (m * 2 ^ k) ≡ bit_and (a / 2 ^ k) m * 2 ^ k
high_mask zero a m =
    let whole : m * 2 ^ 0 ≡ m = omega arith in
    let same : a / 2 ^ 0 ≡ a = omega arith in
    ap (bit_and a) whole ∙ (ap (λ (t : ℕ). bit_and t m) (sym same) ∙ omega arith)
high_mask (suc k) a m =
    let x : ℕ = m * 2 ^ k in
    let twice : m * 2 ^ suc k ≡ 2 * x = shifted m k in
    let half : 2 * x / 2 ≡ x = omega arith in
    let even : 2 * x % 2 ≡ 0 = omega arith in
    let high : a / 2 / 2 ^ k ≡ a / 2 ^ suc k =
      div-div-eq-div-mul a 2 (2 ^ k) ∙ ap (λ (t : ℕ). a / t) (sym (power k)) in
    let step : bit_and a (2 * x) ≡ 2 * bit_and (a / 2) x =
      and_low a (2 * x) ∙ rw (half, even) (omega (arith, min-zero (a % 2) (omega arith))) in
    ap (bit_and a) twice
    ∙ (step
        ∙ (ap (λ (t : ℕ). 2 * t) (high_mask k (a / 2) m)
            ∙ (sym (shifted (bit_and (a / 2 / 2 ^ k) m) k)
                ∙ ap (λ (t : ℕ). bit_and t m * 2 ^ suc k) high)))

pub mask_block : (a : ℕ) → a < 2 ^ 32 → bit_and a 4294959104 ≡ a / 8192 * 8192
mask_block a h =
    high_mask 13 a 524287 ∙ ap (λ (t : ℕ). t * 2 ^ 13) (bit_and-ones 19 (a / 2 ^ 13) (omega arith))

-- Of two stored bytes the later one stands.
pub byte_after :
    (mem : List ℕ) (a v i : ℕ)
    → a < length mem
    → get_elem? (write_at mem a (v ∷ [])) i ≡ (if i == a then some v else get_elem? mem i)
byte_after mem a v i h = elim (Bool-cases (i == a)) [
  | inl here ↦
      let place : a + 0 ≡ i = ground (arith, here) in
      rw here (
        sym (ap (get_elem? (write_at mem a (v ∷ []))) place)
        ∙ (get_elem?-within mem (v ∷ []) a 0 (omega arith) ∙ refl))
  | inr there ↦ rw there (get_elem?-write_at mem (v ∷ []) a i (omega arith) (ground (arith, there)))
]

-- The next store of a byte.
pub store_bytes-next :
    (mem : List ℕ) (a v b : ℕ) (rest : List (ℕ × ℕ))
    → v % 256 ≡ b
    → a < length mem
    → length mem < 2 ^ 64
    → store_bytes mem ((a, v) ∷ rest) ≡ store_bytes (write_at mem a (b ∷ [])) rest
unfolding store_bytes to_bytes
store_bytes-next mem a v b rest e h small =
    let one : store 1 mem a v ≡ ok (write_at mem a (b ∷ [])) =
      store-ok 1 mem a v (omega arith) small ∙ ap (λ (x : ℕ). ok (write_at mem a (x ∷ []))) e in
    rw (store_bytes, one) refl
