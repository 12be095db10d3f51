-- ===== src/Wasm2c/Memset/Bytes.antt =====
-- The steps of the bytes that `f9` of samples/obf_1/obf_w2c.c stores.
use squanchy.Base.{
  ℕ, ◌+◌, ◌-◌, ◌*◌, ◌≤◌, ◌^◌, true, false, List, [], ◌∷◌, ◌≡◌, refl, some, arith, ltb, u32, bit_and,
  ◌==◌,
}
use squanchy.Wasm2c.{ok}
use squanchy.Wasm2c.Format.{sub32}
use squanchy.Wasm2c.Memset.{store_each, f9_words, f9_bytes}

-- The addresses of the three groups of bytes, for a range that begins at `p0` and ends at `e`.
abbrev pub first : (p0 e : ℕ) → List ℕ
first p0 e = p0 ∷ (e - 1) ∷ []

abbrev pub second : (p0 e : ℕ) → List ℕ
second p0 e = (p0 + 2) ∷ (p0 + 1) ∷ (e - 3) ∷ (e - 2) ∷ []

abbrev pub third : (p0 e : ℕ) → List ℕ
third p0 e = (p0 + 3) ∷ (e - 4) ∷ []

module _ (fuel p0 p1 p2 : ℕ) (mem m1 m2 m3 : List ℕ) (large : 1 ≤ p2) (below : p0 + p2 ≤ 2 ^ 32)
    (ran1 : store_each 1 mem p1 (first p0 (p0 + p2)) ≡ ok m1) where
  some_bytes : (p2 == 0) ≡ false
  some_bytes = ground arith

  place1 : u32 (u32 (p0 + p2) + 4294967295) ≡ p0 + p2 - 1
  place1 = omega arith

  pub f9_bytes-first : ltb p2 3 ≡ true → f9_bytes fuel mem p0 p1 p2 ≡ some (ok m1)
  unfolding f9_bytes
  f9_bytes-first short = rw (f9_bytes, some_bytes, place1, ran1, short) refl

  module _ (more : ltb p2 3 ≡ false) (larger : 3 ≤ p2)
      (ran2 : store_each 1 m1 p1 (second p0 (p0 + p2)) ≡ ok m2) where
    pub f9_bytes-second : ltb p2 7 ≡ true → f9_bytes fuel mem p0 p1 p2 ≡ some (ok m2)
    unfolding f9_bytes
    f9_bytes-second short =
        let place2 : u32 (u32 (p0 + p2) + 4294967293) ≡ p0 + p2 - 3 = omega arith in
        let place3 : u32 (u32 (p0 + p2) + 4294967294) ≡ p0 + p2 - 2 = omega arith in
        rw (f9_bytes, some_bytes, place1, ran1, more, place2, place3, ran2, short) refl

    module _ (further : ltb p2 7 ≡ false) (largest : 7 ≤ p2)
        (ran3 : store_each 1 m2 p1 (third p0 (p0 + p2)) ≡ ok m3) where
      pub f9_bytes-third : ltb p2 9 ≡ true → f9_bytes fuel mem p0 p1 p2 ≡ some (ok m3)
      unfolding f9_bytes
      f9_bytes-third short =
          let place2 : u32 (u32 (p0 + p2) + 4294967293) ≡ p0 + p2 - 3 = omega arith in
          let place3 : u32 (u32 (p0 + p2) + 4294967294) ≡ p0 + p2 - 2 = omega arith in
          let place4 : u32 (u32 (p0 + p2) + 4294967292) ≡ p0 + p2 - 4 = omega arith in
          rw
            (
              f9_bytes, some_bytes, place1, ran1, more, place2, place3, ran2, further, place4, ran3,
              short,
            )
            refl

      -- `l3` and `l4` are what the code computes.
      pub f9_bytes-words :
          (out : List ℕ) (skip : ℕ)
          → ltb p2 9 ≡ false
          → bit_and (sub32 0 p0) 3 ≡ skip
          → f9_words fuel m3
              (u32 (p0 + skip))
              (bit_and (sub32 p2 skip) 4294967292)
              (u32 (bit_and p1 255 * 16843009))
            ≡ some (ok out)
          → f9_bytes fuel mem p0 p1 p2 ≡ some (ok out)
      unfolding f9_bytes
      f9_bytes-words out skip long e runs =
          let place2 : u32 (u32 (p0 + p2) + 4294967293) ≡ p0 + p2 - 3 = omega arith in
          let place3 : u32 (u32 (p0 + p2) + 4294967294) ≡ p0 + p2 - 2 = omega arith in
          let place4 : u32 (u32 (p0 + p2) + 4294967292) ≡ p0 + p2 - 4 = omega arith in
          rw
            (
              f9_bytes, some_bytes, place1, ran1, more, place2, place3, ran2, further, place4, ran3,
              long, e,
            )
            runs
