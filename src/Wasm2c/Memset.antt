-- ===== src/Wasm2c/Memset.antt =====
-- `f9` of samples/obf_1/obf_w2c.c, the C library's memset: it stores from both ends inwards, first
-- bytes, then words, and the rest by 32 bytes a round.
pub mod Painted
pub mod Loop
pub mod Covers
pub mod Words
pub mod Bytes
pub mod Laws
use squanchy.Base.{
  ℕ, zero, suc, ◌+◌, ◌*◌, Bool, true, false, Option, none, some, List, [], ◌∷◌, ◌==◌, ltb, u32, u64,
  bit_and, bit_or,
}
use squanchy.Wasm2c.{Checked, ok, trap}
use squanchy.Wasm2c.Format.{Returns, then_run, sub32}
use squanchy.Wasm2c.Memory.{store}

-- Stores of one value of `n` bytes, one after the other.
unfoldable pub store_each : (n : ℕ) → List ℕ → (v : ℕ) → List ℕ → Checked (List ℕ)
store_each n mem v [] = ok mem
store_each n mem v (a ∷ as_) = elim (store n mem a v) [
  | trap t ↦ trap t
  | ok mem' ↦ store_each n mem' v as_
]

-- The loop `var_L1`.
unfoldable pub f9_loop : ℕ → List ℕ → (p1 p2 l6 : ℕ) → Option (Checked (List ℕ))
f9_loop zero mem p1 p2 l6 = none
f9_loop (suc fuel) mem p1 p2 l6 =
    then_run (store_each 8 mem l6 ((p1 + 24) ∷ (p1 + 16) ∷ (p1 + 8) ∷ p1 ∷ [])) λ mem'.
      let p2' = u32 (p2 + 4294967264) in
      elim (ltb 31 p2') [ true ↦ f9_loop fuel mem' (u32 (p1 + 32)) p2' l6 | false ↦ some (ok mem') ]

-- From the subtraction of `var_l5` on: the words `p1` between `l3` and the end, `l4` bytes.
unfoldable pub f9_rest : ℕ → List ℕ → (l3 l4 p1 : ℕ) → Option (Checked (List ℕ))
f9_rest fuel mem l3 l4 p1 =
    let l5 = bit_or (bit_and l3 4) 24 in
    let p2 = sub32 l4 l5 in
    elim (ltb p2 32) [
      | true ↦ some (ok mem)
      | false ↦ f9_loop fuel mem (u32 (l3 + l5)) p2 (u64 (p1 * 4294967297))
    ]

-- From the first store of a word on, up to that.
unfoldable pub f9_words : ℕ → List ℕ → (l3 l4 p1 : ℕ) → Option (Checked (List ℕ))
f9_words fuel mem l3 l4 p1 =
    let p2 = u32 (l3 + l4) in
    then_run (store_each 4 mem p1 (l3 ∷ u32 (p2 + 4294967292) ∷ [])) λ mem'. elim (ltb l4 9) [
      | true ↦ some (ok mem')
      | false ↦
          then_run
            (store_each 4 mem' p1
              ((l3 + 8) ∷ (l3 + 4) ∷ u32 (p2 + 4294967288) ∷ u32 (p2 + 4294967284) ∷ []))
            λ mem'. elim (ltb l4 25) [
              | true ↦ some (ok mem')
              | false ↦
                  then_run
                    (store_each 4 mem' p1 (
                      (l3 + 24)
                      ∷ (l3 + 20)
                      ∷ (l3 + 16)
                      ∷ (l3 + 12)
                      ∷ u32 (p2 + 4294967280)
                      ∷ u32 (p2 + 4294967276)
                      ∷ u32 (p2 + 4294967272)
                      ∷ u32 (p2 + 4294967268)
                      ∷ []))
                    λ mem'. f9_rest fuel mem' l3 l4 p1
            ]
    ]

-- The whole without the result `p0`.
unfoldable pub f9_bytes : ℕ → List ℕ → (p0 p1 p2 : ℕ) → Option (Checked (List ℕ))
f9_bytes fuel mem p0 p1 p2 = elim (p2 == 0) [
  | true ↦ some (ok mem)
  | false ↦
      let l3 = u32 (p0 + p2) in
      then_run (store_each 1 mem p1 (p0 ∷ u32 (l3 + 4294967295) ∷ [])) λ mem'. elim (ltb p2 3) [
        | true ↦ some (ok mem')
        | false ↦
            then_run
              (store_each 1 mem' p1
                ((p0 + 2) ∷ (p0 + 1) ∷ u32 (l3 + 4294967293) ∷ u32 (l3 + 4294967294) ∷ []))
              λ mem'. elim (ltb p2 7) [
                | true ↦ some (ok mem')
                | false ↦
                    then_run (store_each 1 mem' p1 ((p0 + 3) ∷ u32 (l3 + 4294967292) ∷ [])) λ mem'.
                      elim (ltb p2 9) [
                        | true ↦ some (ok mem')
                        | false ↦
                            let l4 = bit_and (sub32 0 p0) 3 in
                            f9_words fuel mem' (u32 (p0 + l4)) (bit_and (sub32 p2 l4) 4294967292)
                              (u32 (bit_and p1 255 * 16843009))
                      ]
              ]
      ]
]

unfoldable pub f9 : ℕ → List ℕ → (p0 p1 p2 : ℕ) → Returns
f9 fuel mem p0 p1 p2 = elim (f9_bytes fuel mem p0 p1 p2) [
  | none ↦ none
  | some (trap t) ↦ some (trap t)
  | some (ok mem') ↦ some (ok (p0, mem'))
]
