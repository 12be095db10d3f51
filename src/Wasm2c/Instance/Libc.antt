-- ===== src/Wasm2c/Instance/Libc.antt =====
-- The constructors of an instance and small functions of its C library, samples/obf_1/obf_w2c.c:
-- locks that do nothing, the error number at 69524, and the messages for error numbers.
pub mod Errors
pub mod Digits
pub mod Constructors
use squanchy.Base.{
  ℕ, ◌+◌, ◌-◌, ◌*◌, ◌/◌, ◌%◌, ◌^◌, ◌≤◌, ◌<◌, Bool, true, false, ◌≡◌, refl, sym, ap, ◌∙◌, subst,
  arith, inl, inr, List, if◌then◌else◌, length, u32, ltb, ◌==◌,
}
use squanchy.Wasm2c.{Checked, ok, trap, read_at}
use squanchy.Wasm2c.Memory.{load_unsigned, store, i32_load, i32_store}
use squanchy.Wasm2c.Memory.Laws.{store-load}
use squanchy.Wasm2c.Instance.{W2cSquanchy}
use squanchy.Wasm2c.Instance.Stack.{stack_init}

-- `f7`
unfoldable pub f7 : W2cSquanchy → ℕ → ℕ
f7 w p0 = 0

-- `f10`
unfoldable pub f10 : W2cSquanchy → ℕ → ℕ
f10 w p0 = 1

-- `f11`, `f12` and `f13` change nothing.
unfoldable pub f11 : W2cSquanchy → ℕ → W2cSquanchy
f11 w p0 = w

unfoldable pub f12 : W2cSquanchy → ℕ → W2cSquanchy
f12 w p0 = w

unfoldable pub f13 : W2cSquanchy → ℕ → W2cSquanchy
f13 w p0 = w

-- `f14` and `f15`
unfoldable pub f14 : W2cSquanchy → W2cSquanchy × ℕ
f14 w = (f12 w 69512, 69516)

unfoldable pub f15 : W2cSquanchy → W2cSquanchy
f15 w = f13 w 69512

-- `f19`: where the error number is.
unfoldable pub f19 : W2cSquanchy → ℕ
f19 w = 69524

-- A store to the memory of an instance.
abbrev pub stored : W2cSquanchy → Checked (List ℕ) → Checked W2cSquanchy
stored w (trap t) = trap t
stored w (ok mem) = ok (record w { memory = mem })

-- `f36`: an error becomes the error number and -1.
unfoldable pub f36 : W2cSquanchy → ℕ → Checked (W2cSquanchy × ℕ)
f36 w p0 = elim (p0 == 0) [
  | true ↦ ok (w, 0)
  | false ↦ elim (stored w (i32_store w.memory (f19 w) p0)) [
    | trap t ↦ trap t
    | ok w' ↦ ok (w', 4294967295)
  ]
]

-- `f37`, `f38` and `f39`
unfoldable pub f37 : W2cSquanchy → ℕ
f37 w = 42

unfoldable pub f38 : W2cSquanchy → ℕ
unfolding f37
f38 w = f37 w

unfoldable pub f39 : W2cSquanchy → ℕ
f39 w = 69584

-- `f40`
unfoldable pub f40 : W2cSquanchy → Checked W2cSquanchy
f40 w = elim (stored w (i32_store w.memory (0 + 69680) 69560)) [
  | trap t ↦ trap t
  | ok w' ↦ stored w' (i32_store w'.memory (0 + 69608) (f38 w'))
]

-- `__wasm_call_ctors_0`
unfoldable pub call_ctors : W2cSquanchy → Checked W2cSquanchy
call_ctors w = f40 (stack_init w)

-- `f56` and `strerror_0`: where the message for an error number is.
unfoldable pub f56 : W2cSquanchy → (p0 p1 : ℕ) → Checked ℕ
f56 w p0 p1 =
    let number = if ltb 153 p0 then 0 else p0 in
    elim (load_unsigned 2 w.memory (u32 (u32 (number * 2) + 68016))) [
      | trap t ↦ trap t
      | ok offset ↦ ok (u32 (offset + 66096))
    ]

unfoldable pub strerror : W2cSquanchy → ℕ → Checked ℕ
strerror w p0 = f56 w p0 p0
