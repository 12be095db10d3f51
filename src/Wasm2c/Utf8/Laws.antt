-- ===== src/Wasm2c/Utf8/Laws.antt =====
-- `f41` of samples/obf_1/obf_w2c.c encodes a character in UTF-8.
use squanchy.Base.{
  ℕ, ◌+◌, ◌/◌, ◌%◌, ◌≤◌, ◌<◌, ◌^◌, true, false, ◌&&◌, List, [], ◌∷◌, Option, some, none, inl, inr,
  ◌⊎◌, ◌≡◌, ap, ◌∙◌, arith, ltb, leb, length, if◌then◌else◌, ◌==◌, bit_and, bit_or, Bool-cases, u32,
}
use squanchy.Wasm2c.{Checked, ok, write_at}
use squanchy.Wasm2c.Memory.{i32_store, to_bytes}
use squanchy.Wasm2c.Memory.Laws.{store-ok}
use squanchy.Wasm2c.Instance.{W2cSquanchy}
use squanchy.Wasm2c.Instance.Libc.{f19}
use squanchy.Wasm2c.Utf8.{
  store_bytes, answer, f41_invalid, f41_three, f41_four, f41_utf8, f41_single, f41_locale, f41, f42,
}
use squanchy.Wasm2c.Utf8.Bytes.{trail_byte, lead_two, lead_three, lead_four, mask_block}
use squanchy.Wasm2c.Utf8.Placed.{Placed, one-Placed, two-Placed, three-Placed, four-Placed}

-- The bytes of a character in UTF-8; a number that is none has none.
abbrev pub utf8 : ℕ → Option (List ℕ)
utf8 c =
    if ltb c 128
    then some (c ∷ [])
    else if ltb c 2048
    then some ((192 + c / 64) ∷ (128 + c % 64) ∷ [])
    else if leb 55296 c && ltb c 57344
    then none
    else if ltb c 65536
    then some ((224 + c / 4096) ∷ (128 + c / 64 % 64) ∷ (128 + c % 64) ∷ [])
    else if ltb c 1114112
    then some
        ((240 + c / 262144) ∷ (128 + c / 4096 % 64) ∷ (128 + c / 64 % 64) ∷ (128 + c % 64) ∷ [])
    else none

-- A result for the bytes of a character: they are stored and counted, or the error is.
abbrev pub Answers : W2cSquanchy → (p0 : ℕ) → Checked (W2cSquanchy × ℕ) → Option (List ℕ) → Type 0
Answers w p0 result (some bs) =
    (mem' : List ℕ) × (result ≡ ok (record w { memory = mem' }, length bs))
    × Placed p0 bs w.memory mem'
Answers w p0 result none =
    (mem' : List ℕ) × (result ≡ ok (record w { memory = mem' }, 4294967295))
    × (i32_store w.memory (f19 w) 25 ≡ ok mem')

module _ (w : W2cSquanchy) (p0 p1 : ℕ) (room : p0 + 4 ≤ length w.memory)
    (small : length w.memory < 2 ^ 64) (word : p1 < 2 ^ 32) where
  single-Answers : p1 < 128 → Answers w p0 (f41_single w p0 p1) (some (p1 ∷ []))
  unfolding f41_single
  single-Answers h =
      let (mem', stored, placed) = one-Placed w.memory p0 small p1 p1 (omega arith) (omega arith) in
      (mem', ap (answer w 1) stored, placed)

  three-Answers :
      p1 < 65536
      → Answers w p0
          (f41_three w p0 p1)
          (some ((224 + p1 / 4096) ∷ (128 + p1 / 64 % 64) ∷ (128 + p1 % 64) ∷ []))
  unfolding f41_three
  three-Answers h =
      let (mem', stored, placed) =
        three-Placed w.memory p0 small (bit_or (p1 / 2 ^ 12) 224)
          (bit_or (bit_and (p1 / 2 ^ 6) 63) 128) (bit_or (bit_and p1 63) 128) (224 + p1 / 4096)
          (128 + p1 / 64 % 64) (128 + p1 % 64)
          (omega (arith, lead_three (p1 / 2 ^ 12) (omega arith)))
          (omega (arith, trail_byte (p1 / 2 ^ 6) (omega arith)))
          (omega (arith, trail_byte p1 (omega arith))) (omega arith) in
      (mem', ap (answer w 3) stored, placed)

  two-Answers :
      p1 < 2048
      → Answers w p0
          (answer w 2 (
            store_bytes w.memory
              ((p0 + 1, bit_or (bit_and p1 63) 128) ∷ (p0, bit_or (p1 / 2 ^ 6) 192) ∷ [])))
          (some ((192 + p1 / 64) ∷ (128 + p1 % 64) ∷ []))
  two-Answers h =
      let (mem', stored, placed) =
        two-Placed w.memory p0 small (bit_or (p1 / 2 ^ 6) 192) (bit_or (bit_and p1 63) 128)
          (192 + p1 / 64) (128 + p1 % 64) (omega (arith, lead_two (p1 / 2 ^ 6) (omega arith)))
          (omega (arith, trail_byte p1 (omega arith))) (omega arith) in
      (mem', ap (answer w 2) stored, placed)

  four-Answers :
      65536 ≤ p1
      → p1 < 1114112
      → Answers w p0 (f41_four w p0 p1) (
          some (
            (240 + p1 / 262144)
            ∷ (128 + p1 / 4096 % 64)
            ∷ (128 + p1 / 64 % 64)
            ∷ (128 + p1 % 64)
            ∷ []))
  unfolding f41_four
  four-Answers low h =
      let (mem', stored, placed) =
        four-Placed w.memory p0 small (bit_or (p1 / 2 ^ 18) 240)
          (bit_or (bit_and (p1 / 2 ^ 12) 63) 128) (bit_or (bit_and (p1 / 2 ^ 6) 63) 128)
          (bit_or (bit_and p1 63) 128) (240 + p1 / 262144) (128 + p1 / 4096 % 64)
          (128 + p1 / 64 % 64) (128 + p1 % 64)
          (omega (arith, lead_four (p1 / 2 ^ 18) (omega arith)))
          (omega (arith, trail_byte (p1 / 2 ^ 12) (omega arith)))
          (omega (arith, trail_byte (p1 / 2 ^ 6) (omega arith)))
          (omega (arith, trail_byte p1 (omega arith))) (omega arith) in
      let within : ltb 1048575 (u32 (p1 + 4294901760)) ≡ false = ground (arith, low, h) in
      (mem', rw (f41_four, within) (ap (answer w 4) stored), placed)

  invalid-Answers : 69528 ≤ length w.memory → Answers w p0 (f41_invalid w) none
  unfolding f41_invalid f19
  invalid-Answers h =
      let stored = store-ok 4 w.memory 69524 25 h small in
      (write_at w.memory 69524 (to_bytes 4 25), ap (answer w 4294967295) stored, stored)

  beyond-Answers :
      69528 ≤ length w.memory → (p1 < 65536) ⊎ (1114112 ≤ p1) → Answers w p0 (f41_four w p0 p1) none
  unfolding f41_four
  beyond-Answers h out =
      let past : ltb 1048575 (u32 (p1 + 4294901760)) ≡ true = ground (arith, word, out) in
      rw (f41_four, past) (invalid-Answers h)

-- The last block of the two before the characters of four bytes.
block_last :
    (p1 : ℕ)
    → 55296 ≤ p1
    → p1 < 2 ^ 32
    → (bit_and p1 4294959104 == 57344) ≡ (leb 57344 p1 && ltb p1 65536)
block_last p1 low word = ap (λ (t : ℕ). t == 57344) (mask_block p1 word) ∙ ground (arith, low)

module _ (w : W2cSquanchy) (p0 p1 : ℕ) (room : p0 + 4 ≤ length w.memory)
    (errno : 69528 ≤ length w.memory) (small : length w.memory < 2 ^ 64) (word : p1 < 2 ^ 32) where
  -- The characters from the block of the surrogates on.
  high-Answers : 55296 ≤ p1 → Answers w p0 (f41_utf8 w p0 p1) (utf8 p1)
  unfolding f41_utf8
  high-Answers low =
      let block = block_last p1 low word in
      let a : ltb 2047 p1 ≡ true = ground (arith, low) in
      let b : ltb p1 55296 ≡ false = ground (arith, low) in
      let c : ltb p1 128 ≡ false = ground (arith, low) in
      let d : ltb p1 2048 ≡ false = ground (arith, low) in
      let e : leb 55296 p1 ≡ true = ground (arith, low) in
      elim (Bool-cases (ltb p1 57344)) [
        | inl surrogate ↦
            let f : leb 57344 p1 && ltb p1 65536 ≡ false = ground (arith, surrogate) in
            rw (f41_utf8, utf8, a, b, c, d, e, block, f, surrogate)
              (beyond-Answers w p0 p1 room small word errno (ground (arith, surrogate)))
        | inr above ↦ elim (Bool-cases (ltb p1 65536)) [
          | inl three ↦
              let f : leb 57344 p1 && ltb p1 65536 ≡ true = ground (arith, above, three) in
              rw (f41_utf8, utf8, a, b, c, d, e, block, f, above, three)
                (three-Answers w p0 p1 room small word (ground (arith, three)))
          | inr past ↦
              let f : leb 57344 p1 && ltb p1 65536 ≡ false = ground (arith, past) in
              elim (Bool-cases (ltb p1 1114112)) [
                | inl four ↦
                    rw (f41_utf8, utf8, a, b, c, d, e, block, f, above, past, four)
                      (four-Answers w p0 p1 room small word (ground (arith, past))
                        (ground (arith, four)))
                | inr out ↦
                    rw (f41_utf8, utf8, a, b, c, d, e, block, f, above, past, out)
                      (beyond-Answers w p0 p1 room small word errno (ground (arith, out)))
              ]
        ]
      ]

  low-Answers : 128 ≤ p1 → p1 < 55296 → Answers w p0 (f41_utf8 w p0 p1) (utf8 p1)
  unfolding f41_utf8
  low-Answers low high =
      let c : ltb p1 128 ≡ false = ground (arith, low) in
      let e : leb 55296 p1 ≡ false = ground (arith, high) in
      elim (Bool-cases (ltb p1 2048)) [
        | inl two ↦
            let a : ltb 2047 p1 ≡ false = ground (arith, two) in
            rw (f41_utf8, utf8, a, c, two)
              (two-Answers w p0 p1 room small word (ground (arith, two)))
        | inr three ↦
            let a : ltb 2047 p1 ≡ true = ground (arith, three) in
            let b : ltb p1 55296 ≡ true = ground (arith, high) in
            let f : ltb p1 65536 ≡ true = ground (arith, high) in
            rw (f41_utf8, utf8, a, b, c, three, e, f)
              (three-Answers w p0 p1 room small word (omega arith))
      ]

  utf8-Answers : 128 ≤ p1 → Answers w p0 (f41_utf8 w p0 p1) (utf8 p1)
  utf8-Answers low = elim (Bool-cases (ltb p1 55296)) [
    | inl under ↦ low-Answers low (ground (arith, under))
    | inr over ↦ high-Answers (ground (arith, over))
  ]

  f41-Answers :
      (p2 v : ℕ) → 0 < p0 → f41_locale w ≡ ok v → 0 < v → Answers w p0 (f41 w p0 p1 p2) (utf8 p1)
  unfolding f41
  f41-Answers p2 v pos locale some_encoding =
      let there : p0 == 0 ≡ false = ground (arith, pos) in
      let encoded : v == 0 ≡ false = ground (arith, some_encoding) in
      elim (Bool-cases (leb p1 127)) [
        | inl ascii ↦
            let c : ltb p1 128 ≡ true = ground (arith, ascii) in
            rw (f41, utf8, there, ascii, c)
              (single-Answers w p0 p1 room small word (ground (arith, ascii)))
        | inr more ↦ rw (f41, there, more, locale, encoded) (utf8-Answers (ground (arith, more)))
      ]

  -- Let the instance have a memory of at least 69528 and less than 2 ^ 64 places, the locale of
  -- the thread an encoding, and the address p0, which is not 0, at least four places of the memory
  -- from it on. Then f42 for a number below 2 ^ 32 stores the bytes of its character in UTF-8 from
  -- p0 on, leaves all else of the instance and gives their number; where the number is no
  -- character it stores 25 as the error number and gives 2 ^ 32 - 1.
  pub f42-Answers :
      (v : ℕ) → 0 < p0 → f41_locale w ≡ ok v → 0 < v → Answers w p0 (f42 w p0 p1) (utf8 p1)
  unfolding f42
  f42-Answers v pos locale some_encoding =
      let there : p0 == 0 ≡ false = ground (arith, pos) in
      rw (f42, there) (f41-Answers 0 v pos locale some_encoding)
