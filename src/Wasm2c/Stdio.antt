-- ===== src/Wasm2c/Stdio.antt =====
-- The stream output of the C library in samples/obf_1/obf_w2c.c: `f16` prepares a stream for
-- writing, `f22` (fwritex) copies bytes to the stream's buffer or hands them to the stream's write
-- function, and `f25` does so on a stream without an error. A stream is a part of the memory: its
-- flags stand at 0, its buffer's end at 16, the next place at 20, its write function at 36.
pub mod Pad
pub mod Scan
pub mod Laws
use squanchy.Base.{
  ℕ, zero, suc, ◌+◌, Bool, true, false, Option, none, some, List, ◌==◌, ltb, leb, u32, bit_and,
  bit_or,
}
use squanchy.Wasm2c.{Checked, ok, trap, call_indirect}
use squanchy.Wasm2c.Format.{then_run, sub32, i32_load8_u}
use squanchy.Wasm2c.Memory.{i32_load, i32_store, i64_store}
use squanchy.Wasm2c.Memcpy.{f21}
use squanchy.Wasm2c.Table.{call_indirect_target}
use squanchy.Wasm2c.Types.{t0}
use squanchy.Wasm2c.Instance.{W2cSquanchy}
use squanchy.Wasm2c.Instance.Libc.{stored}
use squanchy.Wasm2c.Instance.Calls.{Callee}

-- A statement that may trap, before the rest of a function without loops.
abbrev pub and_then {ℓ κ} : {A : Type ℓ} {B : Type κ} → Checked A → (A → Checked B) → Checked B
and_then (ok a) rest = rest a
and_then (trap t) rest = trap t

-- `f16`: the positions of a stream that is to be written.
unfoldable pub f16 : W2cSquanchy → ℕ → Checked (W2cSquanchy × ℕ)
f16 w p0 = and_then (i32_load w.memory (p0 + 72)) λ mode.
    and_then (stored w (i32_store w.memory (p0 + 72) (bit_or (u32 (mode + 4294967295)) mode))) λ w1.
      and_then (i32_load w1.memory p0) λ flags. elim (bit_and flags 8 == 0) [
        | false ↦
            and_then (stored w1 (i32_store w1.memory p0 (bit_or flags 32)))
              λ w2. ok (w2, 4294967295)
        | true ↦ and_then (stored w1 (i64_store w1.memory (p0 + 4) 0)) λ w2.
            and_then (i32_load w2.memory (p0 + 44)) λ buffer.
              and_then (stored w2 (i32_store w2.memory (p0 + 28) buffer)) λ w3.
                and_then (stored w3 (i32_store w3.memory (p0 + 20) buffer)) λ w4.
                  and_then (i32_load w4.memory (p0 + 48)) λ size.
                    and_then (stored w4 (i32_store w4.memory (p0 + 16) (u32 (buffer + size))))
                      λ w5. ok (w5, 0)
      ]

-- The call of a stream's write function, a function of type `t0` behind the table.
unfoldable pub call_writer : Callee → W2cSquanchy → (p0 p1 p2 : ℕ) → Checked (W2cSquanchy × ℕ)
call_writer callee w p0 p1 p2 = and_then (i32_load w.memory (p0 + 36)) λ i.
    elim (call_indirect_target w.indirect_function_table (some t0) i) [
      | trap t ↦ trap t
      | ok none ↦ trap call_indirect
      | ok (some r) ↦ callee r.func r.module_instance w p0 p1 p2
    ]

-- From the label `var_B3` on.
unfoldable pub f22_copy :
    ℕ → W2cSquanchy → (p1 p2 l3 l4 l5 : ℕ) → Option (Checked (W2cSquanchy × ℕ))
f22_copy fuel w p1 p2 l3 l4 l5 = elim (f21 fuel w.memory l4 l5 p1) [
  | none ↦ none
  | some (trap t) ↦ some (trap t)
  | some (ok r) ↦ then_run (i32_load r.1 (p2 + 20)) λ wpos.
      then_run (i32_store r.1 (p2 + 20) (u32 (wpos + p1)))
        λ mem. some (ok (record w { memory = mem }, u32 (l3 + p1)))
]

-- From the label `var_B5` on: the bytes up to the last newline are written.
unfoldable pub f22_flush :
    ℕ → Callee → W2cSquanchy → (p0 p1 p2 l3 : ℕ) → Option (Checked (W2cSquanchy × ℕ))
f22_flush fuel callee w p0 p1 p2 l3 = then_run (call_writer callee w p2 p0 l3) λ r.
    elim (ltb r.1 l3) [
      | true ↦ some (ok r)
      | false ↦
          then_run (i32_load r.0.memory (p2 + 20))
            λ wpos. f22_copy fuel r.0 (sub32 p1 l3) p2 l3 wpos (u32 (p0 + l3))
    ]

-- The loop `var_L6`: how many bytes reach up to the last newline, 0 where there is none.
unfoldable pub f22_scan : ℕ → List ℕ → (p0 l3 : ℕ) → Option (Checked ℕ)
f22_scan zero mem p0 l3 = none
f22_scan (suc fuel) mem p0 l3 = then_run (i32_load8_u mem (u32 (u32 (p0 + l3) + 4294967295))) λ c.
    elim (c == 10) [
      | true ↦ some (ok l3)
      | false ↦ elim (u32 (l3 + 4294967295) == 0) [
        | true ↦ some (ok 0)
        | false ↦ f22_scan fuel mem p0 (u32 (l3 + 4294967295))
      ]
    ]

-- From the label `var_B2` on, where the buffer has room.
unfoldable pub f22_fits :
    ℕ → Callee → W2cSquanchy → (p0 p1 p2 l4 : ℕ) → Option (Checked (W2cSquanchy × ℕ))
f22_fits fuel callee w p0 p1 p2 l4 = then_run (i32_load w.memory (p2 + 80)) λ line.
    elim (leb 2147483648 line) [
      | true ↦ f22_copy fuel w p1 p2 0 l4 p0
      | false ↦ elim (p1 == 0) [
        | true ↦ f22_copy fuel w p1 p2 0 l4 p0
        | false ↦ elim (f22_scan fuel w.memory p0 p1) [
          | none ↦ none
          | some (trap t) ↦ some (trap t)
          | some (ok zero) ↦ f22_copy fuel w p1 p2 0 l4 p0
          | some (ok (suc n)) ↦ f22_flush fuel callee w p0 p1 p2 (suc n)
        ]
      ]
    ]

-- From the label `var_B1` on.
unfoldable pub f22_room :
    ℕ → Callee → W2cSquanchy → (p0 p1 p2 l3 : ℕ) → Option (Checked (W2cSquanchy × ℕ))
f22_room fuel callee w p0 p1 p2 l3 = then_run (i32_load w.memory (p2 + 20)) λ l4.
    elim (leb p1 (sub32 l3 l4)) [
      | false ↦ some (call_writer callee w p2 p0 p1)
      | true ↦ f22_fits fuel callee w p0 p1 p2 l4
    ]

unfoldable pub f22 : ℕ → Callee → W2cSquanchy → (p0 p1 p2 : ℕ) → Option (Checked (W2cSquanchy × ℕ))
f22 fuel callee w p0 p1 p2 = then_run (i32_load w.memory (p2 + 16)) λ l3. elim (l3 == 0) [
  | false ↦ f22_room fuel callee w p0 p1 p2 l3
  | true ↦ then_run (f16 w p2) λ r. elim (r.1 == 0) [
    | false ↦ some (ok (r.0, 0))
    | true ↦ then_run (i32_load r.0.memory (p2 + 16)) λ l3'. f22_room fuel callee r.0 p0 p1 p2 l3'
  ]
]

-- `f25`, whose result is none but the instance.
unfoldable pub f25 : ℕ → Callee → W2cSquanchy → (p0 p1 p2 : ℕ) → Option (Checked W2cSquanchy)
f25 fuel callee w p0 p1 p2 = then_run (i32_load8_u w.memory p0) λ flags.
    elim (bit_and flags 32 == 0) [
      | false ↦ some (ok w)
      | true ↦ elim (f22 fuel callee w p1 p2 p0) [
        | none ↦ none
        | some (trap t) ↦ some (trap t)
        | some (ok r) ↦ some (ok r.0)
      ]
    ]
