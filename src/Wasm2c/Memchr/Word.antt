-- ===== src/Wasm2c/Memchr/Word.antt =====
-- The test of a word in `f17` of samples/obf_1/obf_w2c.c.
use Prim.Native.Nat.{max, min}
use squanchy.Base.{
  ℕ, ◌*◌, ◌/◌, ◌%◌, ◌^◌, ◌<◌, true, ◌≡◌, ◌≢◌, ap, ap₂, ◌∙◌, arith, u32, bit_and, bit_or, bit_xor,
  ==_iff,
}
use squanchy.Wasm2c.Bits.Digits.{and-digit, or-digit, xor-div, xor_same_byte, xor_bound}
use squanchy.Wasm2c.Format.{sub32}
use squanchy.Wasm2c.Memchr.{no_match}

-- Where the test no_match, the digit `k` of one of the two numbers is set, if the mask has it.
digit_set :
    (k a b : ℕ)
    → bit_and (bit_or a b) 2155905152 ≡ 2155905152
    → 2155905152 / 2 ^ k % 2 ≡ 1
    → (a / 2 ^ k % 2 ≡ 0)
    → (b / 2 ^ k % 2 ≡ 0)
    → ⊥
digit_set k a b test mask clear clear' =
    let all : bit_or a b / 2 ^ k % 2 ≡ 0 = or-digit k a b ∙ ap₂ max clear clear' in
    let none_set : bit_and (bit_or a b) 2155905152 / 2 ^ k % 2 ≡ 0 =
      and-digit k (bit_or a b) 2155905152 ∙ ap₂ min all mask in
    omega (arith, ap (λ (t : ℕ). t / 2 ^ k % 2) test, mask, none_set)

-- A byte that matches is 0 in the exclusive disjunction.
match_zero : (k w v : ℕ) → w / 2 ^ k % 256 ≡ v / 2 ^ k % 256 → bit_xor w v / 2 ^ k % 256 ≡ 0
match_zero k w v same =
    ap (λ (t : ℕ). t % 256) (xor-div k w v) ∙ xor_same_byte (w / 2 ^ k) (v / 2 ^ k) same

module _ (w c : ℕ) (word : w < 2 ^ 32) (byte : c < 256)
    (test : no_match w (u32 (c * 16843009)) ≡ true) where
  abbrev v : ℕ
  v = u32 (c * 16843009)

  abbrev x : ℕ
  x = bit_xor w v

  marked : bit_and (bit_or (sub32 16843008 x) x) 2155905152 ≡ 2155905152
  unfolding no_match
  marked = (==_iff _ _).0 test

  small : x / 2 ^ 32 ≡ 0
  small = xor_bound 32 w v (omega arith) (omega arith)

  -- None of the four bytes is the one looked for.
  pub no_match-first : w % 256 ≢ c
  no_match-first e =
      let z : x / 2 ^ 0 % 256 ≡ 0 = match_zero 0 w v (omega arith) in
      digit_set 7 (sub32 16843008 x) x marked (omega arith) (omega (arith, z, small))
        (omega (arith, z))

  pub no_match-second : w / 256 % 256 ≢ c
  no_match-second e =
      let z : x / 2 ^ 8 % 256 ≡ 0 = match_zero 8 w v (omega arith) in
      digit_set 15 (sub32 16843008 x) x marked (omega arith) (omega (arith, z, small))
        (omega (arith, z))

  pub no_match-third : w / 65536 % 256 ≢ c
  no_match-third e =
      let z : x / 2 ^ 16 % 256 ≡ 0 = match_zero 16 w v (omega arith) in
      digit_set 23 (sub32 16843008 x) x marked (omega arith) (omega (arith, z, small))
        (omega (arith, z))

  pub no_match-fourth : w / 16777216 % 256 ≢ c
  no_match-fourth e =
      let z : x / 2 ^ 24 % 256 ≡ 0 = match_zero 24 w v (omega arith) in
      digit_set 31 (sub32 16843008 x) x marked (omega arith) (omega (arith, z, small))
        (omega (arith, z))
