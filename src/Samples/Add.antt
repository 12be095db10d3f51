-- ===== src/Samples/Add.antt =====
-- `add` of samples/reeverse_demo/add.c, the function of the demo: a constant that a loop sums up and
-- an opaque predicate of mixed Boolean and arithmetic operations. An `int` is a 32-bit word that
-- wraps around, as it does in WebAssembly.
use squanchy.Base.{
  ℕ, ◌+◌, ◌-◌, ◌*◌, ◌^◌, ◌<◌, ◌≡◌, List, [], ◌∷◌, ◌==◌, if◌then◌else◌, bit_and, bit_or, bit_xor,
  u32, arith,
}
use squanchy.Samples.Bits.{bit_or-sum, bit_or-lt}

-- `~` and the binary `-` of a word.
abbrev pub complement : ℕ → ℕ
complement x = 2 ^ 32 - 1 - x

abbrev pub minus : ℕ → ℕ → ℕ
minus x y = u32 (x + (2 ^ 32 - y))

-- The loop over the array.
unfoldable pub sum_of : List ℕ → ℕ → ℕ
sum_of [] sum = sum
sum_of (x ∷ xs) sum = sum_of xs (u32 (sum + x))

-- `A`
abbrev pub left : ℕ → ℕ → ℕ
left a b = u32 (u32 (u32 ((2 ^ 32 - 1) * b) + complement (bit_or a b)) + bit_and a b)

-- `B`
abbrev pub right : ℕ → ℕ → ℕ
right a b = minus (complement b) (bit_xor a b)

unfoldable pub add : ℕ → ℕ → ℕ
add a b =
    let sum = sum_of (1 ∷ 2 ∷ 3 ∷ 4 ∷ 5 ∷ []) 0 in
    let c = if minus (left a b) (right a b) == 0 then 1911 else 23 in
    u32 (u32 (u32 (a + b) + c) + sum)

opaque_predicate : (a b : ℕ) → a < 2 ^ 32 → b < 2 ^ 32 → minus (left a b) (right a b) ≡ 0
opaque_predicate a b p q = omega (arith, p, q, bit_or-sum a b, bit_or-lt 32 a b p q)

-- On words the opaque predicate holds, so the function adds 1926 to the sum of its arguments.
pub add_lem : (a b : ℕ) → a < 2 ^ 32 → b < 2 ^ 32 → add a b ≡ u32 (a + b + 1926)
unfolding add sum_of
add_lem a b p q = ground (arith, opaque_predicate a b p q)
