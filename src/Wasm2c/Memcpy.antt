-- ===== src/Wasm2c/Memcpy.antt =====
-- `f21` of samples/obf_1/obf_w2c.c, the C library's memcpy: from 512 bytes on it leaves the copy to a
-- call that is commented out. Below, it copies single bytes up to a multiple of 4, blocks of 64
-- bytes, words, and the bytes that are left; or four bytes a round where the two pointers differ in
-- their lowest two digits.
pub mod Copied
pub mod Bytes
pub mod Steps
pub mod Words
pub mod Laws
use squanchy.Base.{
  ℕ, zero, suc, ◌+◌, ◌*◌, Bool, true, false, Option, none, some, List, [], ◌∷◌, ◌==◌, ltb, leb, u32,
  bit_and, bit_xor,
}
use squanchy.Wasm2c.{Checked, ok, trap}
use squanchy.Wasm2c.Format.{Returns, then_run}
use squanchy.Wasm2c.Memory.{load_unsigned, store}

-- A load of `n` bytes and a store of what it gives.
unfoldable pub copy_step : (n : ℕ) → List ℕ → (dest src : ℕ) → Checked (List ℕ)
copy_step n mem dest src = elim (load_unsigned n mem src) [
  | trap t ↦ trap t
  | ok v ↦ store n mem dest v
]

-- The same at several offsets, one after the other.
unfoldable pub copy_each : (n : ℕ) → List ℕ → (dest src : ℕ) → List ℕ → Checked (List ℕ)
copy_each n mem dest src [] = ok mem
copy_each n mem dest src (o ∷ os) = elim (copy_step n mem (dest + o) (src + o)) [
  | trap t ↦ trap t
  | ok mem' ↦ copy_each n mem' dest src os
]

-- The loop `var_L14`.
unfoldable pub f21_bytes : ℕ → List ℕ → (p1 p2 l3 : ℕ) → Option (Checked (List ℕ))
f21_bytes zero mem p1 p2 l3 = none
f21_bytes (suc fuel) mem p1 p2 l3 = then_run (copy_step 1 mem p2 p1) λ mem'.
    elim (u32 (p2 + 1) == l3) [
      | true ↦ some (ok mem')
      | false ↦ f21_bytes fuel mem' (u32 (p1 + 1)) (u32 (p2 + 1)) l3
    ]

-- From the label `var_B1` on.
unfoldable pub f21_tail : ℕ → List ℕ → (p1 p2 l3 : ℕ) → Option (Checked (List ℕ))
f21_tail fuel mem p1 p2 l3 = elim (leb l3 p2) [
  | true ↦ some (ok mem)
  | false ↦ f21_bytes fuel mem p1 p2 l3
]

-- The loop `var_L9`.
unfoldable pub f21_words : ℕ → List ℕ → (p1 p2 l3 l4 : ℕ) → Option (Checked (List ℕ))
f21_words zero mem p1 p2 l3 l4 = none
f21_words (suc fuel) mem p1 p2 l3 l4 = then_run (copy_step 4 mem p2 p1) λ mem'.
    elim (ltb (u32 (p2 + 4)) l4) [
      | true ↦ f21_words fuel mem' (u32 (p1 + 4)) (u32 (p2 + 4)) l3 l4
      | false ↦ f21_tail fuel mem' (u32 (p1 + 4)) (u32 (p2 + 4)) l3
    ]

-- From the label `var_B7` on.
unfoldable pub f21_few : ℕ → List ℕ → (p1 p2 l3 l4 : ℕ) → Option (Checked (List ℕ))
f21_few fuel mem p1 p2 l3 l4 = elim (leb l4 p2) [
  | true ↦ f21_tail fuel mem p1 p2 l3
  | false ↦ f21_words fuel mem p1 p2 l3 l4
]

-- The loop `var_L8`.
unfoldable pub f21_blocks : ℕ → List ℕ → (p1 p2 l3 l4 l5 : ℕ) → Option (Checked (List ℕ))
f21_blocks zero mem p1 p2 l3 l4 l5 = none
f21_blocks (suc fuel) mem p1 p2 l3 l4 l5 =
    then_run
      (copy_each 4 mem p2 p1
        (0 ∷ 4 ∷ 8 ∷ 12 ∷ 16 ∷ 20 ∷ 24 ∷ 28 ∷ 32 ∷ 36 ∷ 40 ∷ 44 ∷ 48 ∷ 52 ∷ 56 ∷ 60 ∷ []))
      λ mem'. elim (leb (u32 (p2 + 64)) l5) [
        | true ↦ f21_blocks fuel mem' (u32 (p1 + 64)) (u32 (p2 + 64)) l3 l4 l5
        | false ↦ f21_few fuel mem' (u32 (p1 + 64)) (u32 (p2 + 64)) l3 l4
      ]

-- From the label `var_B3` on.
unfoldable pub f21_aligned : ℕ → List ℕ → (p1 p2 l3 : ℕ) → Option (Checked (List ℕ))
f21_aligned fuel mem p1 p2 l3 =
    let l4 = bit_and l3 4294967292 in
    elim (ltb l3 64) [
      | true ↦ f21_few fuel mem p1 p2 l3 l4
      | false ↦
          let l5 = u32 (l4 + 4294967232) in
          elim (ltb l5 p2) [
            | true ↦ f21_few fuel mem p1 p2 l3 l4
            | false ↦ f21_blocks fuel mem p1 p2 l3 l4 l5
          ]
    ]

-- The loop `var_L6`.
unfoldable pub f21_align : ℕ → List ℕ → (p1 p2 l3 : ℕ) → Option (Checked (List ℕ))
f21_align zero mem p1 p2 l3 = none
f21_align (suc fuel) mem p1 p2 l3 = then_run (copy_step 1 mem p2 p1) λ mem'.
    elim (bit_and (u32 (p2 + 1)) 3 == 0) [
      | true ↦ f21_aligned fuel mem' (u32 (p1 + 1)) (u32 (p2 + 1)) l3
      | false ↦ elim (ltb (u32 (p2 + 1)) l3) [
        | true ↦ f21_align fuel mem' (u32 (p1 + 1)) (u32 (p2 + 1)) l3
        | false ↦ f21_aligned fuel mem' (u32 (p1 + 1)) (u32 (p2 + 1)) l3
      ]
    ]

-- The loop `var_L12`.
unfoldable pub f21_quads : ℕ → List ℕ → (p1 p2 l3 l4 : ℕ) → Option (Checked (List ℕ))
f21_quads zero mem p1 p2 l3 l4 = none
f21_quads (suc fuel) mem p1 p2 l3 l4 = then_run (copy_each 1 mem p2 p1 (0 ∷ 1 ∷ 2 ∷ 3 ∷ [])) λ mem'.
    elim (leb (u32 (p2 + 4)) l4) [
      | true ↦ f21_quads fuel mem' (u32 (p1 + 4)) (u32 (p2 + 4)) l3 l4
      | false ↦ f21_tail fuel mem' (u32 (p1 + 4)) (u32 (p2 + 4)) l3
    ]

-- From the label `var_B2` on.
unfoldable pub f21_unaligned : ℕ → List ℕ → (p0 p1 l3 : ℕ) → Option (Checked (List ℕ))
f21_unaligned fuel mem p0 p1 l3 = elim (ltb l3 4) [
  | true ↦ f21_tail fuel mem p1 p0 l3
  | false ↦
      let l4 = u32 (l3 + 4294967292) in
      elim (ltb l4 p0) [
        | true ↦ f21_tail fuel mem p1 p0 l3
        | false ↦ f21_quads fuel mem p1 p0 l3 l4
      ]
]

-- From the label `var_B0` on, without the result `p0`.
unfoldable pub f21_short : ℕ → List ℕ → (p0 p1 p2 : ℕ) → Option (Checked (List ℕ))
f21_short fuel mem p0 p1 p2 =
    let l3 = u32 (p0 + p2) in
    elim (bit_and (bit_xor p1 p0) 3 == 0) [
      | false ↦ f21_unaligned fuel mem p0 p1 l3
      | true ↦ elim (bit_and p0 3 == 0) [
        | true ↦ f21_aligned fuel mem p1 p0 l3
        | false ↦ elim (p2 == 0) [
          | true ↦ f21_aligned fuel mem p1 p0 l3
          | false ↦ f21_align fuel mem p1 p0 l3
        ]
      ]
    ]

unfoldable pub f21 : ℕ → List ℕ → (p0 p1 p2 : ℕ) → Returns
f21 fuel mem p0 p1 p2 = elim (ltb p2 512) [
  | false ↦ some (ok (p0, mem))
  | true ↦ elim (f21_short fuel mem p0 p1 p2) [
    | none ↦ none
    | some (trap t) ↦ some (trap t)
    | some (ok mem') ↦ some (ok (p0, mem'))
  ]
]
