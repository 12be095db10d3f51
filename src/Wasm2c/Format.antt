-- ===== src/Wasm2c/Format.antt =====
-- The number formatting of the C library in samples/obf_1/obf_w2c.c, as wasm2c wrote it: the digits
-- of a number are stored downwards from a pointer (f28, f29, f30), and a decimal is read from the
-- bytes that a pointer in the memory points to (f26). A loop runs on fuel; `none` is a run that
-- needs more.
pub mod Numeral
pub mod Print
pub mod Octal
pub mod Hex
pub mod Decimal
pub mod Getint
use squanchy.Base.{
  ℕ, zero, suc, ◌+◌, ◌-◌, ◌*◌, ◌/◌, ◌^◌, Bool, true, false, Option, none, some, List, ◌==◌,
  if◌then◌else◌, ltb, leb, u32, u64, bit_and, bit_or, bit_xor,
}
use squanchy.Wasm2c.{Checked, ok, trap}
use squanchy.Wasm2c.Memory.{load_unsigned, store, i32_load, i32_store, i32_load8_s}

-- What a function returns and the memory after it.
abbrev pub Returns : Type 0
Returns = Option (Checked (ℕ × List ℕ))

abbrev pub i32_store8 : List ℕ → ℕ → ℕ → Checked (List ℕ)
i32_store8 = store 1

abbrev pub i32_load8_u : List ℕ → ℕ → Checked ℕ
i32_load8_u = load_unsigned 1

-- A statement that may trap, before the rest of a loop's body.
abbrev pub then_run {ℓ κ} :
    {A : Type ℓ} {B : Type κ} → Checked A → (A → Option (Checked B)) → Option (Checked B)
then_run (ok a) rest = rest a
then_run (trap t) rest = some (trap t)

-- `x - y` on a `u32` and on a `u64`.
abbrev pub sub32 : ℕ → ℕ → ℕ
sub32 x y = u32 (x + (2 ^ 32 - y))

abbrev pub sub64 : ℕ → ℕ → ℕ
sub64 x y = u64 (x + (2 ^ 64 - y))

-- The loop `var_L1` of `f29`.
unfoldable pub f29_loop : ℕ → List ℕ → (p0 p1 : ℕ) → Returns
f29_loop zero mem p0 p1 = none
f29_loop (suc fuel) mem p0 p1 =
    let p = u32 (p1 + 4294967295) in
    then_run (i32_store8 mem p (bit_or (bit_and (u32 p0) 7) 48)) λ mem'. elim (ltb 7 p0) [
      | true ↦ f29_loop fuel mem' (p0 / 2 ^ 3) p
      | false ↦ some (ok (p, mem'))
    ]

-- `f29`, octal
unfoldable pub f29 : ℕ → List ℕ → (p0 p1 : ℕ) → Returns
f29 fuel mem p0 p1 = elim (p0 == 0) [ true ↦ some (ok (p1, mem)) | false ↦ f29_loop fuel mem p0 p1 ]

-- The loop `var_L1` of `f28`. The digits stand at 66080.
unfoldable pub f28_loop : ℕ → List ℕ → (p0 p1 p2 : ℕ) → Returns
f28_loop zero mem p0 p1 p2 = none
f28_loop (suc fuel) mem p0 p1 p2 =
    let p = u32 (p1 + 4294967295) in
    then_run (i32_load8_u mem (u32 (bit_and (u32 p0) 15 + 66080))) λ c.
      then_run (i32_store8 mem p (bit_or c p2)) λ mem'. elim (ltb 15 p0) [
        | true ↦ f28_loop fuel mem' (p0 / 2 ^ 4) p p2
        | false ↦ some (ok (p, mem'))
      ]

-- `f28`, hexadecimal
unfoldable pub f28 : ℕ → List ℕ → (p0 p1 p2 : ℕ) → Returns
f28 fuel mem p0 p1 p2 = elim (p0 == 0) [
  | true ↦ some (ok (p1, mem))
  | false ↦ f28_loop fuel mem p0 p1 p2
]

-- The loop `var_L2` of `f30`: the variable `var_l2`, the pointer and the memory behind it.
unfoldable pub f30_wide : ℕ → List ℕ → (p0 p1 : ℕ) → Option (Checked (ℕ × ℕ × List ℕ))
f30_wide zero mem p0 p1 = none
f30_wide (suc fuel) mem p0 p1 =
    let p = u32 (p1 + 4294967295) in
    let l2 = p0 / 10 in
    then_run (i32_store8 mem p (bit_or (u32 (sub64 p0 (u64 (l2 * 10)))) 48)) λ mem'.
      elim (ltb 42949672959 p0) [ true ↦ f30_wide fuel mem' l2 p | false ↦ some (ok (l2, p, mem')) ]

-- The loop `var_L4` of `f30`.
unfoldable pub f30_narrow : ℕ → List ℕ → (l3 p1 : ℕ) → Returns
f30_narrow zero mem l3 p1 = none
f30_narrow (suc fuel) mem l3 p1 =
    let p = u32 (p1 + 4294967295) in
    let l4 = l3 / 10 in
    then_run (i32_store8 mem p (bit_or (sub32 l3 (u32 (l4 * 10))) 48))
      λ mem'. elim (ltb 9 l3) [ true ↦ f30_narrow fuel mem' l4 p | false ↦ some (ok (p, mem')) ]

-- `f30` from the label `var_B0` on.
unfoldable pub f30_rest : ℕ → List ℕ → (l2 p1 : ℕ) → Returns
f30_rest fuel mem l2 p1 = elim (l2 == 0) [
  | true ↦ some (ok (p1, mem))
  | false ↦ f30_narrow fuel mem (u32 l2) p1
]

-- `f30`, decimal
unfoldable pub f30 : ℕ → List ℕ → (p0 p1 : ℕ) → Returns
f30 fuel mem p0 p1 = elim (leb 4294967296 p0) [
  | false ↦ f30_rest fuel mem p0 p1
  | true ↦ elim (f30_wide fuel mem p0 p1) [
    | none ↦ none
    | some (trap t) ↦ some (trap t)
    | some (ok (l2, p, mem')) ↦ f30_rest fuel mem' l2 p
  ]
]

-- The value that an iteration of `f26` gives, from the one before and the digit.
unfoldable pub accumulate : (l1 l3 : ℕ) → ℕ
accumulate l1 l3 =
    if ltb 214748364 l1
    then 4294967295
    else (let ten = u32 (l1 * 10) in
        if ltb (bit_xor ten 2147483647) l3 then 4294967295 else u32 (l3 + ten))

-- The loop `var_L1` of `f26`: `p0` holds the pointer, `l1` the value, `l2` the pointer's value and
-- `l3` the digit.
unfoldable pub f26_loop : ℕ → List ℕ → (p0 l1 l2 l3 : ℕ) → Returns
f26_loop zero mem p0 l1 l2 l3 = none
f26_loop (suc fuel) mem p0 l1 l2 l3 =
    let l4 = accumulate l1 l3 in
    then_run (i32_store mem p0 (u32 (l2 + 1))) λ mem'. then_run (i32_load8_s mem' (l2 + 1)) λ c.
      (let digit = u32 (c + 4294967248) in
        elim (ltb digit 10) [
          | true ↦ f26_loop fuel mem' p0 l4 (u32 (l2 + 1)) digit
          | false ↦ some (ok (l4, mem'))
        ])

-- `f26`
unfoldable pub f26 : ℕ → List ℕ → (p0 : ℕ) → Returns
f26 fuel mem p0 = then_run (i32_load mem p0) λ l2. then_run (i32_load8_s mem l2) λ c.
    (let digit = u32 (c + 4294967248) in
      elim (leb digit 9) [ true ↦ f26_loop fuel mem p0 0 l2 digit | false ↦ some (ok (0, mem)) ])
