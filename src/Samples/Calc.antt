-- ===== src/Samples/Calc.antt =====
-- `calc_org` of samples/obf_1/execute.c, the function that the sample obfuscates; `calc` of
-- samples/obf_1/obf_w2c.c is the same. An `int` is a 32-bit word, and `^` is the exclusive
-- disjunction, as in C.
use Prim.Native.Nat.{differ, max, min, bit_and-bitwise, bit_or-bitwise, bit_xor-bitwise}
use native.Mathlib.Numerals.{unary_clauses}
use squanchy.Base.{
  ℕ, zero, suc, ◌+◌, ◌-◌, ◌*◌, ◌/◌, ◌%◌, ◌<◌, ◌≡◌, refl, ap, ◌==◌, if◌then◌else◌, bit_and, bit_or,
  bit_xor, u32, arith, inl, inr, Bool-cases,
}
use squanchy.Wasm2c.Bits.{and_low, or_low, xor_low}

unfoldable pub calc_org : ℕ → ℕ
calc_org n =
    let remainder = n % 4 in
    if remainder == 0
    then u32 (bit_or n 3131756735 * bit_xor 2 n)
    else if remainder == 1
    then u32 (bit_and n 3131756735 * u32 (3 + n))
    else if remainder == 2
    then u32 (bit_xor n 3131756735 * bit_or 4 n)
    else u32 (u32 (n + 3131756735) * bit_and 5 n)

-- The second factor in sums: what each case adds to the argument, or the bit that it takes from it.
abbrev pub factor : ℕ → ℕ
factor n =
    if n % 4 == 0
    then n + 2
    else if n % 4 == 1
    then u32 (n + 3)
    else if n % 4 == 2
    then n + 4 * (1 - n / 4 % 2)
    else 1 + 4 * (n / 4 % 2)

xor_zero : (n : ℕ) → bit_xor 0 n ≡ n
xor_zero n = simp bit_xor-bitwise refl

or_zero : (n : ℕ) → bit_or 0 n ≡ n
or_zero n = simp bit_or-bitwise refl

and_zero : (n : ℕ) → bit_and 0 n ≡ 0
and_zero n = simp bit_and-bitwise refl

max-one : (d : ℕ) → d < 2 → max 1 d ≡ 1
max-one zero h = refl
max-one (suc zero) h = refl
max-one (suc (suc d)) h = absurd (omega (arith, h))

min-one : (d : ℕ) → d < 2 → min 1 d ≡ d
min-one zero h = refl
min-one (suc zero) h = refl
min-one (suc (suc d)) h = absurd (omega (arith, h))

min-zero : (d : ℕ) → min 0 d ≡ 0
min-zero d = simp unary_clauses refl

max-zero : (d : ℕ) → max 0 d ≡ d
max-zero d = simp unary_clauses refl

differ-zero : (d e : ℕ) → d ≡ 0 → differ e d ≡ e
differ-zero zero zero h = refl
differ-zero zero (suc e) h = refl
differ-zero (suc d) e h = absurd (omega (arith, h))

xor_two : (n : ℕ) → n % 4 ≡ 0 → bit_xor 2 n ≡ n + 2
xor_two n h = omega (
  arith,
  h,
  xor_low 2 n,
  xor_low 1 (n / 2),
  xor_zero (n / 2 / 2),
  differ-zero (n % 2) 0 (omega (arith, h)),
  differ-zero (n / 2 % 2) 1 (omega (arith, h)),
)

or_four : (n : ℕ) → n % 4 ≡ 2 → bit_or 4 n ≡ n + 4 * (1 - n / 4 % 2)
or_four n h = omega (
  arith,
  h,
  or_low 4 n,
  or_low 2 (n / 2),
  or_low 1 (n / 2 / 2),
  or_zero (n / 2 / 2 / 2),
  max-zero (n % 2),
  max-zero (n / 2 % 2),
  max-one (n / 2 / 2 % 2) (omega arith),
)

and_five : (n : ℕ) → n % 4 ≡ 3 → bit_and 5 n ≡ 1 + 4 * (n / 4 % 2)
and_five n h = omega (
  arith,
  h,
  and_low 5 n,
  and_low 2 (n / 2),
  and_low 1 (n / 2 / 2),
  and_zero (n / 2 / 2 / 2),
  min-one (n % 2) (omega arith),
  min-zero (n / 2 % 2),
  min-one (n / 2 / 2 % 2) (omega arith),
)

-- The first factor.
abbrev pub mixed : ℕ → ℕ
mixed n =
    if n % 4 == 0
    then bit_or n 3131756735
    else if n % 4 == 1
    then bit_and n 3131756735
    else if n % 4 == 2
    then bit_xor n 3131756735
    else u32 (n + 3131756735)

times : (a x y : ℕ) → x ≡ y → u32 (a * x) ≡ u32 (a * y)
times a x y e = ap (λ (t : ℕ). u32 (a * t)) e

-- The second factor is a sum: 2 or 3 more than the argument, the argument with its third bit set,
-- or 1 and the third bit.
calc_org_lem : (n : ℕ) → calc_org n ≡ u32 (mixed n * factor n)
unfolding calc_org
calc_org_lem n = elim (Bool-cases (n % 4 == 0)) [
  | inl e ↦ rw e (times (bit_or n 3131756735) (bit_xor 2 n) (n + 2) (xor_two n (ground (arith, e))))
  | inr e ↦ elim (Bool-cases (n % 4 == 1)) [
    | inl e' ↦ rw (e, e') (times (bit_and n 3131756735) (u32 (3 + n)) (u32 (n + 3)) (omega arith))
    | inr e' ↦ elim (Bool-cases (n % 4 == 2)) [
      | inl e'' ↦
          rw (e, e', e'')
            (times (bit_xor n 3131756735) (bit_or 4 n) (n + 4 * (1 - n / 4 % 2))
              (or_four n (ground (arith, e''))))
      | inr e'' ↦
          let r : n % 4 ≡ 3 = ground (arith, e, e', e'') in
          rw (e, e', e'')
            (times (u32 (n + 3131756735)) (bit_and 5 n) (1 + 4 * (n / 4 % 2)) (and_five n r))
    ]
  ]
]
