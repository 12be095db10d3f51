-- ===== src/Wasm2c/Instance/Stack.antt =====
-- The stack of an instance, samples/obf_1/obf_w2c.c: the pointer `g0` runs down from the base `g3` to
-- the end `g2`.
pub mod Reach
use squanchy.Base.{
  ℕ, ◌+◌, ◌-◌, ◌*◌, ◌/◌, ◌%◌, ◌^◌, ◌≤◌, ◌<◌, List, ◌≡◌, refl, sym, ap, ◌∙◌, subst, arith, u32,
  bit_and,
}
use squanchy.Wasm2c.Bits.Masks.{bit_and-round}
use squanchy.Wasm2c.Format.{sub32}
use squanchy.Wasm2c.Instance.{W2cSquanchy}

-- `emscripten_stack_init_0`
unfoldable pub stack_init : W2cSquanchy → W2cSquanchy
stack_init w = record w { g3 = 65536; g2 = bit_and (u32 (0 + 15)) 4294967280 }

-- `emscripten_stack_get_free_0`
unfoldable pub stack_get_free : W2cSquanchy → ℕ
stack_get_free w = sub32 w.g0 w.g2

-- `emscripten_stack_get_base_0`
unfoldable pub stack_get_base : W2cSquanchy → ℕ
stack_get_base w = w.g3

-- `emscripten_stack_get_end_0`
unfoldable pub stack_get_end : W2cSquanchy → ℕ
stack_get_end w = w.g2

-- `_emscripten_stack_restore_0`
unfoldable pub stack_restore : W2cSquanchy → ℕ → W2cSquanchy
stack_restore w p0 = record w { g0 = p0 }

-- `_emscripten_stack_alloc_0`: the instance and the result.
unfoldable pub stack_alloc : W2cSquanchy → ℕ → W2cSquanchy × ℕ
stack_alloc w p0 = let l1 = bit_and (sub32 w.g0 p0) 4294967280 in (record w { g0 = l1 }, l1)

-- `emscripten_stack_get_current_0`
unfoldable pub stack_get_current : W2cSquanchy → ℕ
stack_get_current w = w.g0

-- The pointer and the end are multiples of 16, and the pointer lies between the end and the base.
abbrev pub StackOk : W2cSquanchy → Type 0
StackOk w = (w.g0 % 16 ≡ 0) × (w.g2 % 16 ≡ 0) × (w.g2 ≤ w.g0) × (w.g0 ≤ w.g3) × (w.g3 < 2 ^ 32)

pub stack_init-StackOk : (w : W2cSquanchy) → w.g0 ≡ 65536 → StackOk (stack_init w)
unfolding stack_init
stack_init-StackOk w e = (omega (arith, e), refl, omega arith, omega (arith, e), omega arith)

alloc_value :
    (g0 p0 : ℕ) → p0 ≤ g0 → g0 < 2 ^ 32 → bit_and (sub32 g0 p0) 4294967280 ≡ (g0 - p0) / 16 * 16
alloc_value g0 p0 fits word =
    bit_and-round (sub32 g0 p0) (omega arith)
    ∙ ap (λ (x : ℕ). x / 16 * 16) (omega (arith, fits, word))

pub free_value : (w : W2cSquanchy) → StackOk w → stack_get_free w ≡ w.g0 - w.g2
unfolding stack_get_free
free_value w (aligned, aligned_end, above, below, word) = omega (arith, above, below, word)

-- An allocation that fits what is free gives a multiple of 16 with the bytes that were asked for
-- below the old pointer, and at most 15 more; they are no longer free, and the stack is as well
-- formed as it was.
pub stack_alloc-block :
    (w : W2cSquanchy) (n : ℕ)
    → StackOk w
    → n ≤ stack_get_free w
    → StackOk (stack_alloc w n).0
      × ((stack_alloc w n).1 ≡ stack_get_current (stack_alloc w n).0)
      × ((stack_alloc w n).1 % 16 ≡ 0)
      × ((stack_alloc w n).1 + n ≤ stack_get_current w)
      × (stack_get_current w < (stack_alloc w n).1 + n + 16)
      × (stack_get_free (stack_alloc w n).0 + (stack_get_current w - (stack_alloc w n).1)
          ≡ stack_get_free w)
unfolding stack_alloc stack_get_current
stack_alloc-block w n well fits =
    let (aligned, aligned_end, above, below, word) = well in
    let room : n ≤ w.g0 - w.g2 = omega (arith, fits, free_value w well) in
    let value : bit_and (sub32 w.g0 n) 4294967280 ≡ (w.g0 - n) / 16 * 16 =
      alloc_value w.g0 n (omega (arith, room)) (omega (arith, below, word)) in
    let w' : W2cSquanchy = record w { g0 = bit_and (sub32 w.g0 n) 4294967280 } in
    let well' : StackOk w' = (
      omega (arith, value),
      aligned_end,
      omega (arith, value, aligned_end, above, room),
      omega (arith, value, below),
      word,
    ) in
    (
      well',
      refl,
      omega (arith, value),
      omega (arith, value, room),
      omega (arith, value, room),
      omega (arith, free_value w' well', free_value w well, value, room, aligned_end, above),
    )
