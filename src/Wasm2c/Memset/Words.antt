-- ===== src/Wasm2c/Memset/Words.antt =====
-- The words that `f9` of samples/obf_1/obf_w2c.c stores.
use squanchy.Base.{
  ℕ, suc, ◌+◌, ◌-◌, ◌*◌, ◌/◌, ◌%◌, ◌≤◌, ◌<◌, ◌^◌, true, false, List, [], ◌∷◌, inl, inr, ◌≡◌, refl,
  some, ap, ◌∙◌, arith, ltb, length, replicate, u32, u64, bit_and, bit_or, Bool-cases,
}
use squanchy.Wasm2c.{ok}
use squanchy.Wasm2c.Bits.Masks.{bit_or-24}
use squanchy.Wasm2c.Format.{sub32}
use squanchy.Wasm2c.Memory.{to_bytes}
use squanchy.Wasm2c.Memset.{store_each, f9_loop, f9_rest, f9_words}
use squanchy.Wasm2c.Memset.Painted.{Painted, Painted-fewer, store_each-Painted}
use squanchy.Wasm2c.Memset.Loop.{f9_loop-Painted}
use squanchy.Wasm2c.Memset.Covers.{first, second, third, words_cover, ends_cover, rounds_cover}

module _ (fuel l3 l4 v : ℕ) (mem m1 m2 m3 : List ℕ) (large : 4 ≤ l4) (below : l3 + l4 ≤ 2 ^ 32)
    (ran1 : store_each 4 mem v (first l3 (l3 + l4)) ≡ ok m1) where
  f9_words-first : ltb l4 9 ≡ true → f9_words fuel mem l3 l4 v ≡ some (ok m1)
  unfolding f9_words
  f9_words-first short =
      let place : u32 (u32 (l3 + l4) + 4294967292) ≡ l3 + l4 - 4 = omega arith in
      rw (place, ran1, short) refl

  module _ (more : ltb l4 9 ≡ false) (larger : 12 ≤ l4)
      (ran2 : store_each 4 m1 v (second l3 (l3 + l4)) ≡ ok m2) where
    f9_words-second : ltb l4 25 ≡ true → f9_words fuel mem l3 l4 v ≡ some (ok m2)
    unfolding f9_words
    f9_words-second short =
        let place1 : u32 (u32 (l3 + l4) + 4294967292) ≡ l3 + l4 - 4 = omega arith in
        let place2 : u32 (u32 (l3 + l4) + 4294967288) ≡ l3 + l4 - 8 = omega arith in
        let place3 : u32 (u32 (l3 + l4) + 4294967284) ≡ l3 + l4 - 12 = omega arith in
        rw (place1, ran1, more, place2, place3, ran2, short) refl

    f9_words-third :
        (out : List ℕ)
        → 28 ≤ l4
        → ltb l4 25 ≡ false
        → store_each 4 m2 v (third l3 (l3 + l4)) ≡ ok m3
        → f9_rest fuel m3 l3 l4 v ≡ some (ok out)
        → f9_words fuel mem l3 l4 v ≡ some (ok out)
    unfolding f9_words
    f9_words-third out largest further ran3 runs =
        let place1 : u32 (u32 (l3 + l4) + 4294967292) ≡ l3 + l4 - 4 = omega arith in
        let place2 : u32 (u32 (l3 + l4) + 4294967288) ≡ l3 + l4 - 8 = omega arith in
        let place3 : u32 (u32 (l3 + l4) + 4294967284) ≡ l3 + l4 - 12 = omega arith in
        let place4 : u32 (u32 (l3 + l4) + 4294967280) ≡ l3 + l4 - 16 = omega arith in
        let place5 : u32 (u32 (l3 + l4) + 4294967276) ≡ l3 + l4 - 20 = omega arith in
        let place6 : u32 (u32 (l3 + l4) + 4294967272) ≡ l3 + l4 - 24 = omega arith in
        let place7 : u32 (u32 (l3 + l4) + 4294967268) ≡ l3 + l4 - 28 = omega arith in
        rw (place1, ran1, more, place2, place3, ran2, further, place4, place5, place6, place7, ran3)
          runs

-- Words of one byte.
pub word_bytes : (c : ℕ) → c < 256 → to_bytes 4 (u32 (c * 16843009)) ≡ replicate 4 c
unfolding to_bytes
word_bytes c small = ground arith

pub double_bytes :
    (c : ℕ) → c < 256 → to_bytes 8 (u64 (u32 (c * 16843009) * 4294967297)) ≡ replicate 8 c
unfolding to_bytes
double_bytes c small = ground arith

f9_rest-loop :
    (fuel l3 l4 p2 v : ℕ) (mem : List ℕ)
    → sub32 l4 (bit_or (bit_and l3 4) 24) ≡ p2
    → ltb p2 32 ≡ false
    → f9_rest fuel mem l3 l4 v
      ≡ f9_loop fuel mem (u32 (l3 + bit_or (bit_and l3 4) 24)) p2 (u64 (v * 4294967297))
unfolding f9_rest
f9_rest-loop fuel l3 l4 p2 v mem e long =
    rw (f9_rest, e, long)
      (ap
        (λ (t : ℕ). f9_loop fuel mem (u32 (l3 + bit_or (bit_and l3 4) 24)) t (u64 (v * 4294967297)))
        e)

f9_rest-done :
    (fuel l3 l4 p2 v : ℕ) (mem : List ℕ)
    → sub32 l4 (bit_or (bit_and l3 4) 24) ≡ p2
    → ltb p2 32 ≡ true
    → f9_rest fuel mem l3 l4 v ≡ some (ok mem)
unfolding f9_rest
f9_rest-done fuel l3 l4 p2 v mem e short = rw (f9_rest, e, short) refl

module _ (c lo hi : ℕ) (byte : c < 256) (mem : List ℕ) (fits : hi ≤ length mem)
    (small : length mem ≤ 2 ^ 32) (l3 l4 : ℕ) (from : lo ≤ l3) (to : l3 + l4 ≤ hi)
    (fours : l4 % 4 ≡ 0) where
  abbrev v4 : ℕ
  v4 = u32 (c * 16843009)

  f9_rest-Painted :
      (fuel : ℕ) (m3 : List ℕ)
      → 28 ≤ l4
      → l4 < 32 * suc fuel
      → Painted c lo hi mem m3 ((l3, 28) ∷ (l3 + l4 - 28, 28) ∷ [])
      → (out : List ℕ) × (f9_rest fuel m3 l3 l4 v4 ≡ some (ok out))
        × Painted c lo hi mem out ((l3, l4) ∷ [])
  f9_rest-Painted fuel m3 large enough p =
      let l5 : ℕ = 24 + l3 / 4 % 2 * 4 in
      let amount : bit_or (bit_and l3 4) 24 ≡ l5 = bit_or-24 l3 (omega arith) in
      let left : sub32 l4 (bit_or (bit_and l3 4) 24) ≡ l4 - l5 = omega arith in
      elim (Bool-cases (ltb (l4 - l5) 32)) [
        | inl short ↦
            let bound : l4 ≤ 56 = ground (arith, short) in
            (
              m3,
              f9_rest-done fuel l3 l4 (l4 - l5) v4 m3 left short,
              Painted-fewer c lo hi mem fits (omega arith) m3 _ ((l3, l4) ∷ [])
                  (λ i h. ends_cover l3 l4 i bound h) p,
            )
        | inr long ↦
            let some_left : 32 ≤ l4 - l5 = ground (arith, long) in
            let start : u32 (l3 + bit_or (bit_and l3 4) 24) ≡ l3 + l5 = omega arith in
            let (out, runs, q) =
              f9_loop-Painted c lo hi mem fits small (u64 (v4 * 4294967297)) (double_bytes c byte)
                fuel (l3 + l5) (l4 - l5) m3 _ (omega arith) (omega arith) some_left (omega arith)
                p in
            (
              out,
              f9_rest-loop fuel l3 l4 (l4 - l5) v4 m3 left long
                  ∙ (ap (λ (t : ℕ). f9_loop fuel m3 t (l4 - l5) (u64 (v4 * 4294967297))) start
                      ∙ runs),
              Painted-fewer c lo hi mem fits (omega arith) out _ ((l3, l4) ∷ [])
                  (λ i h.
                    rounds_cover l3 l4 (l3 + l5) ((l4 - l5) / 32 * 32) i (omega arith) (omega arith)
                      h)
                  q,
            )
      ]

  -- From a word's length on the words are all stored.
  pub f9_words-Painted :
      (fuel : ℕ) (mem' : List ℕ)
      → 4 ≤ l4
      → l4 < 32 * suc fuel
      → Painted c lo hi mem mem' []
      → (out : List ℕ) × (f9_words fuel mem' l3 l4 v4 ≡ some (ok out))
        × Painted c lo hi mem out ((l3, l4) ∷ [])
  f9_words-Painted fuel mem' large enough p =
      let e : ℕ = l3 + l4 in
      let stores = store_each-Painted c lo hi mem fits (omega arith) 4 v4 (word_bytes c byte) in
      let fewer = Painted-fewer c lo hi mem fits (omega arith) in
      let (m1, ran1, p1) = stores (first l3 e) mem' [] (omega arith) p in
      elim (Bool-cases (ltb l4 9)) [
        | inl short ↦
            let bound : l4 ≤ 8 = ground (arith, short) in
            (
              m1,
              f9_words-first fuel l3 l4 v4 mem' m1 m1 m1 large (omega arith) ran1 short,
              fewer m1 _ ((l3, l4) ∷ []) (λ i h. ground (arith, h, bound)) p1,
            )
        | inr more ↦
            let larger : 12 ≤ l4 = ground (arith, more, fours) in
            let (m2, ran2, p2) = stores (second l3 e) m1 _ (omega arith) p1 in
            elim (Bool-cases (ltb l4 25)) [
              | inl short ↦
                  let bound : l4 ≤ 24 = ground (arith, short) in
                  (
                    m2,
                    f9_words-second fuel l3 l4 v4 mem' m1 m2 m2 large (omega arith) ran1 more larger
                        ran2 short,
                    fewer m2 _ ((l3, l4) ∷ []) (λ i h. ground (arith, h, bound)) p2,
                  )
              | inr further ↦
                  let largest : 28 ≤ l4 = ground (arith, further, fours) in
                  let (m3, ran3, p3) = stores (third l3 e) m2 _ (omega arith) p2 in
                  let (out, runs, q) = f9_rest-Painted fuel m3 largest enough (
                    fewer m3 _ ((l3, 28) ∷ (e - 28, 28) ∷ [])
                      (λ i h. words_cover l3 e i (omega arith) h) p3) in
                  (
                    out,
                    f9_words-third fuel l3 l4 v4 mem' m1 m2 m3 large (omega arith) ran1 more larger
                        ran2 out largest further ran3 runs,
                    q,
                  )
            ]
      ]
