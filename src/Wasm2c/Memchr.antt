-- ===== src/Wasm2c/Memchr.antt =====
-- `f17` and `f18` of samples/obf_1/obf_w2c.c, the C library's memchr and strnlen. `f17` looks at
-- single bytes up to a multiple of 4, then at words, and at single bytes from the word on that may
-- hold the byte.
pub mod Word
pub mod Scan
pub mod Words
pub mod Laws
use squanchy.Base.{
  ℕ, zero, suc, ◌+◌, ◌*◌, Bool, true, false, not, Option, none, some, List, ◌==◌, if◌then◌else◌,
  ltb, u32, bit_and, bit_or, bit_xor,
}
use squanchy.Wasm2c.{Checked, ok, trap}
use squanchy.Wasm2c.Format.{then_run, sub32, i32_load8_u}
use squanchy.Wasm2c.Memory.{i32_load}

-- The loop `var_L6`, which ends with the pointer, or at the label `var_B0` with 0.
unfoldable pub f17_scan : ℕ → List ℕ → (p0 p2 l3 : ℕ) → Option (Checked ℕ)
f17_scan zero mem p0 p2 l3 = none
f17_scan (suc fuel) mem p0 p2 l3 = then_run (i32_load8_u mem p0) λ b. elim (b == l3) [
  | true ↦ some (ok p0)
  | false ↦
      let p2' = u32 (p2 + 4294967295) in
      elim (p2' == 0) [ true ↦ some (ok 0) | false ↦ f17_scan fuel mem (u32 (p0 + 1)) p2' l3 ]
]

-- From the label `var_B4` on.
unfoldable pub f17_tail : ℕ → List ℕ → (p0 p1 p2 : ℕ) → Option (Checked ℕ)
f17_tail fuel mem p0 p1 p2 = elim (p2 == 0) [
  | true ↦ some (ok 0)
  | false ↦ f17_scan fuel mem p0 p2 (bit_and p1 255)
]

-- The test of a word: true says that none of its bytes is the one that `l4` repeats.
unfoldable pub no_match : (word l4 : ℕ) → Bool
no_match word l4 =
    let l3 = bit_xor word l4 in bit_and (bit_or (sub32 16843008 l3) l3) 2155905152 == 2155905152

-- The loop `var_L5`.
unfoldable pub f17_words : ℕ → List ℕ → (p0 p1 p2 l4 : ℕ) → Option (Checked ℕ)
f17_words zero mem p0 p1 p2 l4 = none
f17_words (suc fuel) mem p0 p1 p2 l4 = then_run (i32_load mem p0) λ word. elim (no_match word l4) [
  | false ↦ f17_scan fuel mem p0 p2 (bit_and p1 255)
  | true ↦
      let p2' = u32 (p2 + 4294967292) in
      elim (ltb 3 p2') [
        | true ↦ f17_words fuel mem (u32 (p0 + 4)) p1 p2' l4
        | false ↦ f17_tail fuel mem (u32 (p0 + 4)) p1 p2'
      ]
]

-- From the label `var_B2` on; `l3` says that bytes are left.
unfoldable pub f17_middle : ℕ → List ℕ → (p0 p1 p2 : ℕ) → (l3 : Bool) → Option (Checked ℕ)
f17_middle fuel mem p0 p1 p2 false = some (ok 0)
f17_middle fuel mem p0 p1 p2 true = then_run (i32_load8_u mem p0) λ b. elim (b == bit_and p1 255) [
  | true ↦ f17_tail fuel mem p0 p1 p2
  | false ↦ elim (ltb p2 4) [
    | true ↦ f17_tail fuel mem p0 p1 p2
    | false ↦ f17_words fuel mem p0 p1 p2 (u32 (bit_and p1 255 * 16843009))
  ]
]

-- The loop `var_L3`.
unfoldable pub f17_align : ℕ → List ℕ → (p0 p1 p2 : ℕ) → Option (Checked ℕ)
f17_align zero mem p0 p1 p2 = none
f17_align (suc fuel) mem p0 p1 p2 = then_run (i32_load8_u mem p0) λ b. elim (b == bit_and p1 255) [
  | true ↦ f17_scan fuel mem p0 p2 (bit_and p1 255)
  | false ↦
      let p2' = u32 (p2 + 4294967295) in
      let p0' = u32 (p0 + 1) in
      elim (bit_and p0' 3 == 0) [
        | true ↦ f17_middle fuel mem p0' p1 p2' (not (p2' == 0))
        | false ↦ elim (p2' == 0) [
          | true ↦ f17_middle fuel mem p0' p1 p2' (not (p2' == 0))
          | false ↦ f17_align fuel mem p0' p1 p2'
        ]
      ]
]

unfoldable pub f17 : ℕ → List ℕ → (p0 p1 p2 : ℕ) → Option (Checked ℕ)
f17 fuel mem p0 p1 p2 = elim (bit_and p0 3 == 0) [
  | true ↦ f17_middle fuel mem p0 p1 p2 (not (p2 == 0))
  | false ↦ elim (p2 == 0) [
    | true ↦ f17_middle fuel mem p0 p1 p2 (not (p2 == 0))
    | false ↦ f17_align fuel mem p0 p1 p2
  ]
]

-- The result of `f18` for that of `f17`.
abbrev pub counted : (p0 p1 l2 : ℕ) → ℕ
counted p0 p1 l2 = if l2 == 0 then p1 else sub32 l2 p0

unfoldable pub f18 : ℕ → List ℕ → (p0 p1 : ℕ) → Option (Checked ℕ)
f18 fuel mem p0 p1 = elim (f17 fuel mem p0 0 p1) [
  | none ↦ none
  | some (trap t) ↦ some (trap t)
  | some (ok l2) ↦ some (ok (counted p0 p1 l2))
]
