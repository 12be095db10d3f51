-- ===== src/Tests/Numbers.antt =====
-- The number formatting of samples/obf_1/obf_w2c.c and its memory operations on a small memory.
use squanchy.Base.{
  ℕ, ◌+◌, ◌*◌, ◌/◌, ◌%◌, ◌^◌, some, List, [], ◌∷◌, ◌≡◌, refl, arith, inl, inr, length, replicate,
}
use squanchy.Wasm2c.{ok, in_range, write_at}
use squanchy.Wasm2c.Memory.{to_bytes, from_bytes, load_unsigned, i32_load, i32_store}
use squanchy.Wasm2c.Memory.Abstract.{
  Command, write, fill, copy, init, execute_all, specified_all, view,
}
use squanchy.Wasm2c.Memory.Refines.{Agree, execute_all-specified}
use squanchy.Wasm2c.Format.{f26, f30}
use squanchy.Wasm2c.Wide.{f43, f44}
use squanchy.Wasm2c.Wide.Stores.{Holds, f43-Holds, f44-Holds}
use squanchy.Wasm2c.Format.Numeral.{number}
use squanchy.Wasm2c.Format.Print.{Prints}
use squanchy.Wasm2c.Format.Decimal.{f30-Prints}
use squanchy.Wasm2c.Format.Getint.{clip}
use squanchy.Wasm2c.Format.Getint.RoundTrip.{f26-reads, f26-f30}

abbrev buffer : List ℕ
buffer = replicate 40 0

abbrev commands : List Command
commands =
    write 4 2 305419896
    ∷ fill 10 255 3
    ∷ copy 20 2 8
    ∷ init (1 ∷ 2 ∷ 3 ∷ []) 30 1 2
    ∷ write 8 36 1
    ∷ []

execute_all-specified_example :
    Agree buffer
      (execute_all commands buffer)
      (specified_all (length buffer) commands (view buffer))
execute_all-specified_example =
    execute_all-specified commands buffer
      (
        (omega arith, omega arith),
        (
          (omega arith, omega arith),
          (
            (omega arith, omega arith, omega arith),
            ((omega arith, omega arith, omega arith), ((omega arith, omega arith), tt)),
          ),
        ),
      )
      (omega arith)

f30-Prints_example : Prints 10 (f30 10 buffer 10000000001 24) buffer 10000000001 24 20
f30-Prints_example =
    f30-Prints buffer 10000000001 24 (omega arith) (omega arith) (omega arith) (omega arith)

-- A cell with the pointer 4, and the text "12" there.
abbrev text : List ℕ
text = 4 ∷ 0 ∷ 0 ∷ 0 ∷ 49 ∷ 50 ∷ 100 ∷ []

loaded : i32_load text 0 ≡ ok 4
unfolding load_unsigned in_range from_bytes
loaded = refl

f26-reads_example :
    f26 2 text 0
    ≡ some (ok (clip (number 10 0 (49 ∷ 50 ∷ [])), write_at text 0 (to_bytes 4 (4 + 2))))
f26-reads_example =
    f26-reads 2 0 4 49 100 (50 ∷ []) text (omega arith) refl refl (omega arith) (omega arith)
      (omega arith) (inl (omega arith)) loaded (refl, (refl, (refl, tt)))

f26-f30_example :
    (start : ℕ) × (mem₁ mem₂ mem₃ : List ℕ) × (f30 10 buffer 1234 24 ≡ some (ok (start, mem₁)))
    × (i32_store mem₁ 30 start ≡ ok mem₂)
    × (f26 20 mem₂ 30 ≡ some (ok (1234, mem₃)))
f26-f30_example =
    f26-f30 buffer 1234 24 30 0 (omega arith) (omega arith) (omega arith) refl refl (omega arith)
      (omega arith) (omega arith) (inr (omega arith))

f43-Holds_example :
    (mem' : List ℕ) × (f43 buffer 16 18446744073709551615 3 70 ≡ ok mem')
    × Holds (((18446744073709551615 + 3 * 2 ^ 64) * 2 ^ 70) % 2 ^ 128) 16 buffer mem'
f43-Holds_example =
    f43-Holds buffer 16 18446744073709551615 3 70 (omega arith) (omega arith) (omega arith)
      (omega arith) (omega arith)

f44-Holds_example :
    (mem' : List ℕ) × (f44 buffer 16 18446744073709551615 3 9 ≡ ok mem')
    × Holds ((18446744073709551615 + 3 * 2 ^ 64) / 2 ^ 9) 16 buffer mem'
f44-Holds_example =
    f44-Holds buffer 16 18446744073709551615 3 9 (omega arith) (omega arith) (omega arith)
      (omega arith) (omega arith)
