-- ===== src/Wasm2c/Utf8.antt =====
-- `f41` and `f42` of samples/obf_1/obf_w2c.c, the C library's wcrtomb and wctomb: a character is
-- stored as its bytes, in UTF-8 where the locale has an encoding.
pub mod Bytes
pub mod Placed
pub mod Laws
use squanchy.Base.{
  ℕ, ◌+◌, ◌*◌, ◌/◌, ◌^◌, Bool, true, false, List, [], ◌∷◌, ◌==◌, ltb, leb, u32, bit_and, bit_or,
}
use squanchy.Wasm2c.{Checked, ok, trap}
use squanchy.Wasm2c.Format.{i32_store8}
use squanchy.Wasm2c.Memory.{i32_load, i32_store}
use squanchy.Wasm2c.Instance.{W2cSquanchy}
use squanchy.Wasm2c.Instance.Libc.{f19, f39}

-- Stores of single bytes, each an address and a value.
unfoldable pub store_bytes : List ℕ → List (ℕ × ℕ) → Checked (List ℕ)
store_bytes mem [] = ok mem
store_bytes mem ((a, v) ∷ rest) = elim (i32_store8 mem a v) [
  | trap t ↦ trap t
  | ok mem' ↦ store_bytes mem' rest
]

-- A result and the memory after the stores.
abbrev pub answer : W2cSquanchy → ℕ → Checked (List ℕ) → Checked (W2cSquanchy × ℕ)
answer w n (trap t) = trap t
answer w n (ok mem) = ok (record w { memory = mem }, n)

-- The error, up to the label `var_B1`.
unfoldable pub f41_invalid : W2cSquanchy → Checked (W2cSquanchy × ℕ)
f41_invalid w = answer w 4294967295 (i32_store w.memory (f19 w) 25)

-- From the label `var_B6` on.
unfoldable pub f41_three : W2cSquanchy → (p0 p1 : ℕ) → Checked (W2cSquanchy × ℕ)
f41_three w p0 p1 = answer w 3 (
    store_bytes w.memory (
      (p0 + 2, bit_or (bit_and p1 63) 128)
      ∷ (p0, bit_or (p1 / 2 ^ 12) 224)
      ∷ (p0 + 1, bit_or (bit_and (p1 / 2 ^ 6) 63) 128)
      ∷ []))

-- From the label `var_B5` on.
unfoldable pub f41_four : W2cSquanchy → (p0 p1 : ℕ) → Checked (W2cSquanchy × ℕ)
f41_four w p0 p1 = elim (ltb 1048575 (u32 (p1 + 4294901760))) [
  | true ↦ f41_invalid w
  | false ↦ answer w 4 (
      store_bytes w.memory (
        (p0 + 3, bit_or (bit_and p1 63) 128)
        ∷ (p0, bit_or (p1 / 2 ^ 18) 240)
        ∷ (p0 + 2, bit_or (bit_and (p1 / 2 ^ 6) 63) 128)
        ∷ (p0 + 1, bit_or (bit_and (p1 / 2 ^ 12) 63) 128)
        ∷ []))
]

-- From the label `var_B3` on.
unfoldable pub f41_utf8 : W2cSquanchy → (p0 p1 : ℕ) → Checked (W2cSquanchy × ℕ)
f41_utf8 w p0 p1 = elim (ltb 2047 p1) [
  | false ↦ answer w 2 (
      store_bytes w.memory
        ((p0 + 1, bit_or (bit_and p1 63) 128) ∷ (p0, bit_or (p1 / 2 ^ 6) 192) ∷ []))
  | true ↦ elim (ltb p1 55296) [
    | true ↦ f41_three w p0 p1
    | false ↦ elim (bit_and p1 4294959104 == 57344) [
      | true ↦ f41_three w p0 p1
      | false ↦ f41_four w p0 p1
    ]
  ]
]

-- From the label `var_B0` on.
unfoldable pub f41_single : W2cSquanchy → (p0 p1 : ℕ) → Checked (W2cSquanchy × ℕ)
f41_single w p0 p1 = answer w 1 (store_bytes w.memory ((p0, p1) ∷ []))

-- What the locale of the thread points to.
unfoldable pub f41_locale : W2cSquanchy → Checked ℕ
f41_locale w = elim (i32_load w.memory (f39 w + 96)) [
  | trap t ↦ trap t
  | ok l ↦ i32_load w.memory l
]

unfoldable pub f41 : W2cSquanchy → (p0 p1 p2 : ℕ) → Checked (W2cSquanchy × ℕ)
f41 w p0 p1 p2 = elim (p0 == 0) [
  | true ↦ ok (w, 1)
  | false ↦ elim (leb p1 127) [
    | true ↦ f41_single w p0 p1
    | false ↦ elim (f41_locale w) [
      | trap t ↦ trap t
      | ok v ↦ elim (v == 0) [
        | true ↦ elim (bit_and p1 4294967168 == 57216) [
          | true ↦ f41_single w p0 p1
          | false ↦ f41_invalid w
        ]
        | false ↦ f41_utf8 w p0 p1
      ]
    ]
  ]
]

unfoldable pub f42 : W2cSquanchy → (p0 p1 : ℕ) → Checked (W2cSquanchy × ℕ)
f42 w p0 p1 = elim (p0 == 0) [ true ↦ ok (w, 0) | false ↦ f41 w p0 p1 0 ]
