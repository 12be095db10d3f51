-- ===== src/Wasm2c/Memcpy/Words.antt =====
-- The word loops of `f21` of samples/obf_1/obf_w2c.c and the bytes in front of them.
use squanchy.Base.{
  ℕ, zero, suc, ◌+◌, ◌-◌, ◌*◌, ◌/◌, ◌%◌, ◌≤◌, ◌<◌, ◌^◌, false, Option, List, ◌⊎◌, inl, inr, ◌≡◌,
  subst, sym, ap, ◌∙◌, arith, ltb, leb, length, ◌==◌, u32, bit_and, Bool-cases,
}
use squanchy.Wasm2c.{Checked}
use squanchy.Wasm2c.Bits.Masks.{bit_and-3, bit_and-fours}
use squanchy.Wasm2c.Memchr.Words.{IsBytes}
use squanchy.Wasm2c.Memcpy.{f21_words, f21_few, f21_blocks, f21_aligned, f21_align}
use squanchy.Wasm2c.Memcpy.Copied.{Copied, copy_step-Copied, copy_each-Copied}
use squanchy.Wasm2c.Memcpy.Bytes.{Ends, Ends-eq, f21_tail-Ends}
use squanchy.Wasm2c.Memcpy.Steps.{
  words_more, words_last, blocks_more, blocks_last, align_more, align_even, align_end, few_tail,
  few_words, aligned_small, aligned_near, aligned_blocks,
}

module _ (d s total : ℕ) (apart : (s + total ≤ d) ⊎ (d + total ≤ s)) (mem : List ℕ)
    (bytes : IsBytes mem) (fits : d + total ≤ length mem) (fits' : s + total ≤ length mem)
    (small : length mem < 2 ^ 32) where
  abbrev EndsHere : Option (Checked (List ℕ)) → Type 0
  EndsHere = Ends d s total apart mem bytes fits fits' small

  abbrev l3 : ℕ
  l3 = d + total

  abbrev l4 : ℕ
  l4 = (d + total) / 4 * 4

  f21_words-Ends :
      (fuel k : ℕ) (mem' : List ℕ)
      → d + k + 4 ≤ l4
      → (d + k) % 4 ≡ 0
      → total < fuel + k
      → Copied d s k mem mem'
      → EndsHere (f21_words fuel mem' (s + k) (d + k) l3 l4)
  f21_words-Ends zero k mem' left fours enough c = absurd (omega arith)
  f21_words-Ends (suc fuel) k mem' left fours enough c =
      let (m1, ran, c1) =
        copy_step-Copied d s total apart mem bytes fits fits' (omega arith) k 4 mem' (omega arith)
          c in
      let e1 : u32 (s + k + 4) ≡ s + (k + 4) = omega arith in
      let e2 : u32 (d + k + 4) ≡ d + (k + 4) = omega arith in
      elim (Bool-cases (ltb (u32 (d + k + 4)) l4)) [
        | inl more ↦
            let less : d + (k + 4) < l4 = ground (arith, more, e2) in
            Ends-eq d s total apart mem bytes fits fits' small
              (words_more fuel (s + k) (d + k) l3 l4 _ _ mem' m1 ran e1 e2 more)
              (f21_words-Ends fuel (k + 4) m1 (omega arith) (omega arith) (omega arith) c1)
        | inr last ↦
            Ends-eq d s total apart mem bytes fits fits' small
              (words_last fuel (s + k) (d + k) l3 l4 _ _ mem' m1 ran e1 e2 last)
              (f21_tail-Ends d s total apart mem bytes fits fits' small fuel (k + 4) m1
                (omega arith) (omega arith) c1)
      ]

  -- The pointer stands at a word, or nothing is left.
  f21_few-Ends :
      (fuel k : ℕ) (mem' : List ℕ)
      → k ≤ total
      → ((d + k) % 4 ≡ 0) ⊎ (k ≡ total)
      → total < fuel + k
      → Copied d s k mem mem'
      → EndsHere (f21_few fuel mem' (s + k) (d + k) l3 l4)
  f21_few-Ends fuel k mem' within at_word enough c = elim (Bool-cases (leb l4 (d + k))) [
    | inl h ↦
        Ends-eq d s total apart mem bytes fits fits' small
          (few_tail fuel (s + k) (d + k) l3 l4 mem' h)
          (f21_tail-Ends d s total apart mem bytes fits fits' small fuel k mem' within (omega arith)
            c)
    | inr h ↦
        let left : d + k < l4 = ground (arith, h) in
        let fours : (d + k) % 4 ≡ 0 = ground (arith, at_word, left) in
        Ends-eq d s total apart mem bytes fits fits' small
          (few_words fuel (s + k) (d + k) l3 l4 mem' h)
          (f21_words-Ends fuel k mem' (omega arith) fours enough c)
  ]

  f21_blocks-Ends :
      (fuel k : ℕ) (mem' : List ℕ)
      → d + k + 64 ≤ l4
      → (d + k) % 4 ≡ 0
      → total < fuel + k
      → Copied d s k mem mem'
      → EndsHere (f21_blocks fuel mem' (s + k) (d + k) l3 l4 (l4 - 64))
  f21_blocks-Ends zero k mem' left fours enough c = absurd (omega arith)
  f21_blocks-Ends (suc fuel) k mem' left fours enough c =
      let (m1, ran, c0) =
        copy_each-Copied d s total apart mem bytes fits fits' (omega arith) k 4 0 16 mem'
          (omega arith) (subst (λ (t : ℕ). Copied d s t mem mem') (omega arith) c) in
      let c1 : Copied d s (k + 64) mem m1 =
        subst (λ (t : ℕ). Copied d s t mem m1) (omega arith) c0 in
      let e1 : u32 (s + k + 64) ≡ s + (k + 64) = omega arith in
      let e2 : u32 (d + k + 64) ≡ d + (k + 64) = omega arith in
      elim (Bool-cases (leb (u32 (d + k + 64)) (l4 - 64))) [
        | inl more ↦
            let less : d + (k + 64) ≤ l4 - 64 = ground (arith, more, e2) in
            Ends-eq d s total apart mem bytes fits fits' small
              (blocks_more fuel (s + k) (d + k) l3 l4 _ _ mem' m1 (l4 - 64) ran e1 e2 more)
              (f21_blocks-Ends fuel (k + 64) m1 (omega arith) (omega arith) (omega arith) c1)
        | inr last ↦
            Ends-eq d s total apart mem bytes fits fits' small
              (blocks_last fuel (s + k) (d + k) l3 l4 _ _ mem' m1 (l4 - 64) ran e1 e2 last)
              (f21_few-Ends fuel (k + 64) m1 (omega arith) (inl (omega arith)) (omega arith) c1)
      ]

  pub f21_aligned-Ends :
      (fuel k : ℕ) (mem' : List ℕ)
      → k ≤ total
      → ((d + k) % 4 ≡ 0) ⊎ (k ≡ total)
      → total < fuel + k
      → Copied d s k mem mem'
      → EndsHere (f21_aligned fuel mem' (s + k) (d + k) l3)
  f21_aligned-Ends fuel k mem' within at_word enough c =
      let e4 : bit_and l3 4294967292 ≡ l4 = bit_and-fours l3 (omega arith) in
      let few = f21_few-Ends fuel k mem' within at_word enough c in
      elim (Bool-cases (ltb l3 64)) [
        | inl h ↦
            Ends-eq d s total apart mem bytes fits fits' small
              (aligned_small fuel (s + k) (d + k) l3 l4 mem' e4 h) few
        | inr large ↦
            let enough_for_one : 64 ≤ l4 = ground (arith, large) in
            let e5 : u32 (l4 + 4294967232) ≡ l4 - 64 = omega arith in
            elim (Bool-cases (ltb (u32 (l4 + 4294967232)) (d + k))) [
              | inl near ↦
                  Ends-eq d s total apart mem bytes fits fits' small
                    (aligned_near fuel (s + k) (d + k) l3 l4 mem' e4 large near) few
              | inr far ↦
                  let far' : ltb (l4 - 64) (d + k) ≡ false =
                    ap (λ (t : ℕ). ltb t (d + k)) (sym e5) ∙ far in
                  let room : d + k ≤ l4 - 64 = ground (arith, far') in
                  let fours : (d + k) % 4 ≡ 0 = ground (arith, at_word, room, enough_for_one) in
                  Ends-eq d s total apart mem bytes fits fits' small
                    (aligned_blocks fuel (s + k) (d + k) l3 l4 mem' e4 (l4 - 64) e5 large far')
                    (f21_blocks-Ends fuel k mem' (omega arith) fours enough c)
            ]
      ]

  pub f21_align-Ends :
      (fuel k : ℕ) (mem' : List ℕ)
      → k < total
      → total < fuel + k
      → Copied d s k mem mem'
      → EndsHere (f21_align fuel mem' (s + k) (d + k) l3)
  f21_align-Ends zero k mem' left enough c = absurd (omega arith)
  f21_align-Ends (suc fuel) k mem' left enough c =
      let (m1, ran, c1) =
        copy_step-Copied d s total apart mem bytes fits fits' (omega arith) k 1 mem' (omega arith)
          c in
      let e1 : u32 (s + k + 1) ≡ s + (k + 1) = omega arith in
      let e2 : u32 (d + k + 1) ≡ d + (k + 1) = omega arith in
      let low : bit_and (d + (k + 1)) 3 ≡ (d + (k + 1)) % 4 =
        bit_and-3 (d + (k + 1)) (omega arith) in
      elim (Bool-cases (bit_and (d + (k + 1)) 3 == 0)) [
        | inl even ↦
            let fours : (d + (k + 1)) % 4 ≡ 0 = ground (arith, even, low) in
            Ends-eq d s total apart mem bytes fits fits' small
              (align_even fuel (s + k) (d + k) l3 l4 _ _ mem' m1 ran e1 e2 even)
              (f21_aligned-Ends fuel (k + 1) m1 (omega arith) (inl fours) (omega arith) c1)
        | inr odd ↦ elim (Bool-cases (ltb (d + (k + 1)) l3)) [
          | inl more ↦
              Ends-eq d s total apart mem bytes fits fits' small
                (align_more fuel (s + k) (d + k) l3 l4 _ _ mem' m1 ran e1 e2 odd more)
                (f21_align-Ends fuel (k + 1) m1 (ground (arith, more)) (omega arith) c1)
          | inr last ↦
              let end : k + 1 ≡ total = ground (arith, last) in
              Ends-eq d s total apart mem bytes fits fits' small
                (align_end fuel (s + k) (d + k) l3 l4 _ _ mem' m1 ran e1 e2 odd last)
                (f21_aligned-Ends fuel (k + 1) m1 (omega arith) (inr end) (omega arith) c1)
        ]
      ]
