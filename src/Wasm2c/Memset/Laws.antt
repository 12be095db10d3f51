-- ===== src/Wasm2c/Memset/Laws.antt =====
-- `f9` of samples/obf_1/obf_w2c.c fills a range as the instruction memory.fill does.
use squanchy.Base.{
  ℕ, zero, suc, ◌+◌, ◌-◌, ◌*◌, ◌/◌, ◌%◌, ◌≤◌, ◌<◌, ◌^◌, true, ◌&&◌, List, [], ◌∷◌, inl, inr, ◌≡◌,
  refl, some, ap, sym, ◌∙◌, arith, ltb, leb, length, replicate, u8, u32, bit_and, Bool-cases,
}
use squanchy.Wasm2c.{ok, write_at}
use squanchy.Wasm2c.Bits.Masks.{bit_and-3, bit_and-255, bit_and-fours}
use squanchy.Wasm2c.Format.{sub32}
use squanchy.Wasm2c.Memory.{to_bytes, memory_fill}
use squanchy.Wasm2c.Memory.Laws.{memory_fill-ok}
use squanchy.Wasm2c.Memset.{f9_words, f9_bytes, f9}
use squanchy.Wasm2c.Memset.Painted.{
  covers, Painted, Painted-fewer, Painted-all, Painted-then, nothing-Painted, store_each-Painted,
  spread,
}
use squanchy.Wasm2c.Memset.Words.{f9_words-Painted}
use squanchy.Wasm2c.Memset.Bytes.{
  first, second, third, f9_bytes-first, f9_bytes-second, f9_bytes-third, f9_bytes-words,
}

one_byte : (p1 : ℕ) → to_bytes 1 p1 ≡ replicate 1 (p1 % 256)
unfolding to_bytes
one_byte p1 = refl

words_args :
    (fuel p0 p1 p2 : ℕ) (m3 : List ℕ) (skip l3 l4 : ℕ) (out : List ℕ)
    → u32 (p0 + skip) ≡ l3
    → bit_and (sub32 p2 skip) 4294967292 ≡ l4
    → p1 < 2 ^ 32
    → f9_words fuel m3 l3 l4 (u32 (p1 % 256 * 16843009)) ≡ some (ok out)
    → f9_words fuel m3
        (u32 (p0 + skip))
        (bit_and (sub32 p2 skip) 4294967292)
        (u32 (bit_and p1 255 * 16843009))
      ≡ some (ok out)
words_args fuel p0 p1 p2 m3 skip l3 l4 out start amount word1 runs =
    rw (start, amount, bit_and-255 p1 word1) runs

-- The words and the bytes at both ends cover the range.
long_cover :
    (p0 p2 l3 l4 i : ℕ)
    → l3 ≤ p0 + 3
    → p0 + p2 ≤ l3 + l4 + 3
    → 9 ≤ p2
    → covers ((p0, p2) ∷ []) i ≡ true
    → covers
        ((l3, l4)
          ∷ spread 1
              (third p0 (p0 + p2))
              (spread 1 (second p0 (p0 + p2)) (spread 1 (first p0 (p0 + p2)) [])))
        i
      ≡ true
long_cover p0 p2 l3 l4 i near far large h = elim (Bool-cases (leb l3 i && ltb i (l3 + l4))) [
  | inl within ↦ rw within refl
  | inr beyond ↦ ground (arith, h, beyond)
]

module _ (p0 p1 p2 : ℕ) (mem : List ℕ) (fits : p0 + p2 ≤ length mem) (small : length mem ≤ 2 ^ 32)
    (word0 : p0 < 2 ^ 32) (word1 : p1 < 2 ^ 32) (word2 : p2 < 2 ^ 32) where
  abbrev Whole : List ℕ → Type 0
  Whole out = Painted (p1 % 256) p0 (p0 + p2) mem out ((p0, p2) ∷ [])

  abbrev three_groups : List (ℕ × ℕ)
  three_groups =
      spread 1 (third p0 (p0 + p2))
        (spread 1 (second p0 (p0 + p2)) (spread 1 (first p0 (p0 + p2)) []))

  -- The words, between the bytes at both ends.
  long_bytes :
      (fuel : ℕ) (m3 : List ℕ)
      → 9 ≤ p2
      → p2 < 32 * suc fuel
      → Painted (p1 % 256) p0 (p0 + p2) mem m3 three_groups
      → (skip : ℕ) × (out : List ℕ) × (bit_and (sub32 0 p0) 3 ≡ skip)
        × (f9_words fuel m3
              (u32 (p0 + skip))
              (bit_and (sub32 p2 skip) 4294967292)
              (u32 (bit_and p1 255 * 16843009))
            ≡ some (ok out))
        × Whole out
  long_bytes fuel m3 large enough p =
      let skip : ℕ = (2 ^ 32 - p0) % 2 ^ 32 % 4 in
      let l3 : ℕ = p0 + skip in
      let l4 : ℕ = (p2 - skip) / 4 * 4 in
      let skipped : bit_and (sub32 0 p0) 3 ≡ skip =
        bit_and-3 (sub32 0 p0) (omega arith) ∙ omega arith in
      let start : u32 (p0 + skip) ≡ l3 = omega arith in
      let left : sub32 p2 skip ≡ p2 - skip = omega arith in
      let amount : bit_and (sub32 p2 skip) 4294967292 ≡ l4 =
        ap (λ (t : ℕ). bit_and t 4294967292) left ∙ bit_and-fours (p2 - skip) (omega arith) in
      let (out, runs, q) =
        f9_words-Painted (p1 % 256) l3 (l3 + l4) (omega arith) m3 (omega (arith, p.same_size))
          (omega (arith, p.same_size)) l3 l4 (omega arith) (omega arith) (omega arith) fuel m3
          (omega arith) (omega arith)
          (nothing-Painted (p1 % 256) l3 (l3 + l4) m3 (omega (arith, p.same_size))
            (omega (arith, p.same_size))) in
      (
        skip,
        out,
        skipped,
        words_args fuel p0 p1 p2 m3 skip l3 l4 out start amount word1 runs,
        Painted-fewer (p1 % 256) p0 (p0 + p2) mem fits (omega arith) out _ ((p0, p2) ∷ [])
            (λ i h. long_cover p0 p2 l3 l4 i (omega arith) (omega arith) (omega arith) h)
            (Painted-then (p1 % 256) p0 (p0 + p2) mem fits (omega arith) m3 out three_groups l3 l4
              (omega arith) (omega arith) p q),
      )

  f9_bytes-Whole :
      (fuel : ℕ)
      → 1 ≤ p2
      → p2 < 32 * suc fuel
      → (out : List ℕ) × (f9_bytes fuel mem p0 p1 p2 ≡ some (ok out)) × Whole out
  f9_bytes-Whole fuel large enough =
      let c : ℕ = p1 % 256 in
      let e : ℕ = p0 + p2 in
      let stores = store_each-Painted c p0 e mem fits (omega arith) 1 p1 (one_byte p1) in
      let fewer = Painted-fewer c p0 e mem fits (omega arith) in
      let (m1, ran1, q1) =
        stores (first p0 e) mem [] (omega arith) (nothing-Painted c p0 e mem fits (omega arith)) in
      elim (Bool-cases (ltb p2 3)) [
        | inl short ↦
            let bound : p2 ≤ 2 = ground (arith, short) in
            (
              m1,
              f9_bytes-first fuel p0 p1 p2 mem m1 m1 m1 large (omega arith) ran1 short,
              fewer m1 _ ((p0, p2) ∷ []) (λ i h. ground (arith, h, bound)) q1,
            )
        | inr more ↦
            let larger : 3 ≤ p2 = ground (arith, more) in
            let (m2, ran2, q2) = stores (second p0 e) m1 _ (omega arith) q1 in
            elim (Bool-cases (ltb p2 7)) [
              | inl short ↦
                  let bound : p2 ≤ 6 = ground (arith, short) in
                  (
                    m2,
                    f9_bytes-second fuel p0 p1 p2 mem m1 m2 m2 large (omega arith) ran1 more larger
                        ran2 short,
                    fewer m2 _ ((p0, p2) ∷ []) (λ i h. ground (arith, h, bound)) q2,
                  )
              | inr further ↦
                  let largest : 7 ≤ p2 = ground (arith, further) in
                  let (m3, ran3, q3) = stores (third p0 e) m2 _ (omega arith) q2 in
                  elim (Bool-cases (ltb p2 9)) [
                    | inl short ↦
                        let bound : p2 ≤ 8 = ground (arith, short) in
                        (
                          m3,
                          f9_bytes-third fuel p0 p1 p2 mem m1 m2 m3 large (omega arith) ran1 more
                              larger ran2 further largest ran3 short,
                          fewer m3 _ ((p0, p2) ∷ []) (λ i h. ground (arith, h, bound)) q3,
                        )
                    | inr long ↦
                        let (skip, out, skipped, runs, q) =
                          long_bytes fuel m3 (ground (arith, long)) enough q3 in
                        (
                          out,
                          f9_bytes-words fuel p0 p1 p2 mem m1 m2 m3 large (omega arith) ran1 more
                              larger ran2 further largest ran3 out skip long skipped runs,
                          q,
                        )
                  ]
            ]
      ]

  Whole-fill : (out : List ℕ) → Whole out → memory_fill mem p0 p1 p2 ≡ ok out
  Whole-fill out q =
      let same : p0 + p2 - p0 ≡ p2 = omega arith in
      let fill : out ≡ write_at mem p0 (replicate (p0 + p2 - p0) (u8 p1)) =
        Painted-all (p1 % 256) p0 (p0 + p2) mem fits (omega arith) out ((p0, p2) ∷ []) (omega arith)
          (λ i from below. ground arith) q in
      memory_fill-ok mem p0 p1 p2 fits (omega arith)
      ∙ ap ok (sym (fill ∙ ap (λ (n : ℕ). write_at mem p0 (replicate n (u8 p1))) same))

nothing_runs : (fuel p0 p1 : ℕ) (mem : List ℕ) → f9_bytes fuel mem p0 p1 0 ≡ some (ok mem)
unfolding f9_bytes
nothing_runs fuel p0 p1 mem = refl

nothing-Whole :
    (p0 p1 : ℕ) (mem : List ℕ)
    → p0 + 0 ≤ length mem
    → length mem ≤ 2 ^ 32
    → Painted (p1 % 256) p0 (p0 + 0) mem mem ((p0, 0) ∷ [])
nothing-Whole p0 p1 mem fits small =
    Painted-fewer (p1 % 256) p0 (p0 + 0) mem fits (omega arith) mem [] ((p0, 0) ∷ [])
      (λ i h. ground (arith, h)) (nothing-Painted (p1 % 256) p0 (p0 + 0) mem fits (omega arith))

-- In a memory of at most 2 ^ 32 bytes, a range within it and enough rounds, `f9` returns its
-- pointer and leaves the memory that memory.fill leaves.
pub f9-memory_fill :
    (fuel p0 p1 p2 : ℕ) (mem : List ℕ)
    → p0 + p2 ≤ length mem
    → length mem ≤ 2 ^ 32
    → p0 < 2 ^ 32
    → p1 < 2 ^ 32
    → p2 < 2 ^ 32
    → p2 < 32 * suc fuel
    → (out : List ℕ) × (f9 fuel mem p0 p1 p2 ≡ some (ok (p0, out)))
      × (memory_fill mem p0 p1 p2 ≡ ok out)
unfolding f9
f9-memory_fill fuel p0 p1 zero mem fits small word0 word1 word2 enough = (
  mem,
  rw (f9, nothing_runs fuel p0 p1 mem) refl,
  Whole-fill p0 p1 0 mem fits small word0 word1 word2 mem (nothing-Whole p0 p1 mem fits small),
)
f9-memory_fill fuel p0 p1 (suc n) mem fits small word0 word1 word2 enough =
    let (out, runs, q) =
      f9_bytes-Whole p0 p1 (suc n) mem fits small word0 word1 word2 fuel (omega arith) enough in
    (out, rw (f9, runs) refl, Whole-fill p0 p1 (suc n) mem fits small word0 word1 word2 out q)
