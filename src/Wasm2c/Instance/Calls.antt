-- ===== src/Wasm2c/Instance/Calls.antt =====
-- Calls through the table of an instance, samples/obf_1/obf_w2c.c: `f58` and `dynCall_jiji`, which
-- carries 64-bit numbers as two halves. The function that a reference names is a parameter.
use squanchy.Base.{
  ℕ, ◌+◌, ◌*◌, ◌/◌, ◌^◌, ◌<◌, String, Option, none, some, ◌≡◌, refl, ap, ◌∙◌, arith, u32, u64,
  bit_or, same, if◌then◌else◌, map, ◌∷◌, Bool, false, true, ◌==◌, zero, suc,
}
use squanchy.Wasm2c.{call_indirect, unreachable, Checked, ok, trap}
use squanchy.Wasm2c.Table.{
  funcref_null_value, elem_value, call_indirect_target, check_call_indirect, func_types_eq,
}
use squanchy.Wasm2c.Types.{t6}
use squanchy.Wasm2c.Bits.{bit_or-fields}
use squanchy.Wasm2c.Instance.Startup.{Fresh}
use squanchy.Wasm2c.Instance.{W2cSquanchy, e0}

-- A function of type `t6`, called with an instance: the instance after it and its result.
abbrev pub Callee : Type 0
Callee = Option String → Option ℕ → W2cSquanchy → (p0 p1 p2 : ℕ) → Checked (W2cSquanchy × ℕ)

-- `f8`
unfoldable pub f8 : W2cSquanchy → (p0 p1 p2 : ℕ) → Checked (W2cSquanchy × ℕ)
f8 w p0 p1 p2 = ok (w, 0)

-- `f46` and `f47`: the high half of a 64-bit result.
unfoldable pub f46 : W2cSquanchy → ℕ → W2cSquanchy
f46 w p0 = record w { g1 = p0 }

unfoldable pub f47 : W2cSquanchy → ℕ
f47 w = w.g1

-- `f58`
unfoldable pub f58 : Callee → W2cSquanchy → (p0 p1 p2 p3 : ℕ) → Checked (W2cSquanchy × ℕ)
f58 callee w p0 p1 p2 p3 = elim (call_indirect_target w.indirect_function_table (some t6) p0) [
  | trap t ↦ trap t
  | ok none ↦ trap call_indirect
  | ok (some r) ↦ callee r.func r.module_instance w p1 p2 p3
]

-- The result of `dynCall_jiji_0`: the low half; the high one goes to `f46`.
abbrev pub halves : Checked (W2cSquanchy × ℕ) → Checked (W2cSquanchy × ℕ)
halves (trap t) = trap t
halves (ok (w, l5)) = ok (f46 w (u32 (l5 / 2 ^ 32)), u32 l5)

-- `dynCall_jiji_0`
unfoldable pub dyn_call_jiji :
    Callee → W2cSquanchy → (p0 p1 p2 p3 p4 : ℕ) → Checked (W2cSquanchy × ℕ)
dyn_call_jiji callee w p0 p1 p2 p3 p4 =
    halves (f58 callee w p0 p1 (bit_or p2 (u64 (p3 * 2 ^ 32))) p4)

-- The functions of the module that the table refers to by that type.
unfoldable pub own_callee : Callee
own_callee f i w p0 p1 p2 = elim f [
  | none ↦ trap call_indirect
  | some name ↦ if same name "w2c_squanchy_f8" then f8 w p0 p1 p2 else trap unreachable
]

only_slot :
    (self : ℕ) (callee : Callee) (w : W2cSquanchy) (p0 p1 p2 p3 : ℕ)
    → w.indirect_function_table
      ≡ funcref_null_value ∷ map (elem_value self (λ k. funcref_null_value)) e0
    → f58 callee w p0 p1 p2 p3 ≡ (
        if p0 == 3
        then callee (some "w2c_squanchy_f8") (some (self + 0)) w p1 p2 p3
        else trap call_indirect)
unfolding f58 call_indirect_target check_call_indirect func_types_eq elem_value
only_slot self callee w zero p1 p2 p3 table = rw table refl
only_slot self callee w (suc zero) p1 p2 p3 table = rw table refl
only_slot self callee w (suc (suc zero)) p1 p2 p3 table = rw table refl
only_slot self callee w (suc (suc (suc zero))) p1 p2 p3 table = rw table refl
only_slot self callee w (suc (suc (suc (suc zero)))) p1 p2 p3 table = rw table refl
only_slot self callee w (suc (suc (suc (suc (suc zero))))) p1 p2 p3 table = rw table refl
only_slot self callee w (suc (suc (suc (suc (suc (suc k)))))) p1 p2 p3 table =
    let miss : (suc (suc (suc (suc (suc (suc k))))) == 3) ≡ false = ground arith in
    rw (table, miss) refl

-- On an instance as it is after the instantiation, `dynCall_jiji` of the module's own functions
-- gives 0 with 0 as the high half for index 3, and traps for any other index.
dyn_call_jiji-Fresh :
    (self env wasi : ℕ) (w : W2cSquanchy) (p0 p1 p2 p3 p4 : ℕ)
    → Fresh self env wasi w
    → dyn_call_jiji own_callee w p0 p1 p2 p3 p4
      ≡ (if p0 == 3 then ok (record w { g1 = 0 }, 0) else trap call_indirect)
unfolding dyn_call_jiji own_callee f8 f46
dyn_call_jiji-Fresh self env wasi w p0 p1 p2 p3 p4 fresh =
    let (imported, hosted, a0, a1, a2, a3, size, first, second, table) = fresh in
    ap halves (only_slot self own_callee w p0 p1 (bit_or p2 (u64 (p3 * 2 ^ 32))) p4 table)
    ∙ elim (p0 == 3)
        as (λ (b : Bool).
          halves (if b then ok (w, 0) else trap call_indirect)
          ≡ (if b then ok (record w { g1 = 0 }, 0) else trap call_indirect)) [
            | true ↦ refl
            | false ↦ refl
          ]

-- The callee gets the two halves of its 64-bit argument as one number, and the two halves of its
-- 64-bit result are the result of the call and what `f47` then gives.
dyn_call_jiji-halves :
    (callee : Callee) (w w' : W2cSquanchy) (p0 p1 p2 p3 p4 l : ℕ)
    → p2 < 2 ^ 32
    → p3 < 2 ^ 32
    → l < 2 ^ 64
    → f58 callee w p0 p1 (p2 + p3 * 2 ^ 32) p4 ≡ ok (w', l)
    → (w'' : W2cSquanchy) × (low : ℕ) × (dyn_call_jiji callee w p0 p1 p2 p3 p4 ≡ ok (w'', low))
      × (low + f47 w'' * 2 ^ 32 ≡ l)
unfolding dyn_call_jiji f46 f47
dyn_call_jiji-halves callee w w' p0 p1 p2 p3 p4 l low high word runs =
    let joined : bit_or p2 (u64 (p3 * 2 ^ 32)) ≡ p2 + p3 * 2 ^ 32 =
      ap (bit_or p2) (omega (arith, high)) ∙ bit_or-fields 32 p2 p3 low in
    (
      record w' { g1 = u32 (l / 2 ^ 32) },
      u32 l,
      ap halves (ap (λ (a : ℕ). f58 callee w p0 p1 a p4) joined ∙ runs),
      omega (arith, word),
    )
