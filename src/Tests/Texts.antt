-- ===== src/Tests/Texts.antt =====
-- The C library's memset, memcpy, memchr, strnlen and output to a stream in
-- samples/obf_1/obf_w2c.c on a small memory.
use squanchy.Base.{
  ℕ, zero, suc, List, [], ◌∷◌, some, none, ◌≡◌, refl, arith, replicate, ltb, true, all, ◌++◌,
  Option, if◌then◌else◌, inr, inl, ◌==◌, bit_and,
}
use squanchy.Wasm2c.{Checked, unreachable, ok, trap, in_range, read_at}
use squanchy.Wasm2c.Memory.{
  memory_fill, memory_copy, load_unsigned, store, i32_store, to_bytes, from_bytes,
}
use squanchy.Wasm2c.Memory.Laws.{load_unsigned-ok}
use squanchy.Wasm2c.Instance.{W2cSquanchy}
use squanchy.Wasm2c.Instance.Calls.{Callee}
use squanchy.Wasm2c.Stdio.{f22, f25}
use squanchy.Wasm2c.Stdio.Pad.{f31, and_run, blocks_out, f31-pads}
use squanchy.Wasm2c.Stdio.Laws.{f25-buffers}
use squanchy.Wasm2c.Memset.{f9}
use squanchy.Wasm2c.Memset.Laws.{f9-memory_fill}
use squanchy.Wasm2c.Memcpy.{
  copy_step, copy_each, f21, f21_short, f21_unaligned, f21_quads, f21_tail, f21_bytes,
}
use squanchy.Wasm2c.Memcpy.Laws.{f21-memory_copy}
use squanchy.Wasm2c.Memchr.{f17, f18}
use squanchy.Wasm2c.Memchr.Scan.{found}
use squanchy.Wasm2c.Memchr.Words.{IsBytes}
use squanchy.Wasm2c.Memchr.Laws.{before, f17-found, f18-before}

abbrev cleared : List ℕ
cleared = replicate 120 0

f9-memory_fill_example :
    (out : List ℕ) × (f9 3 cleared 5 321 90 ≡ some (ok (5, out)))
    × (memory_fill cleared 5 321 90 ≡ ok out)
f9-memory_fill_example =
    f9-memory_fill 3 5 321 90 cleared (omega arith) (omega arith) (omega arith) (omega arith)
      (omega arith) (omega arith)

-- "obfuscated" from the address 1 on, with zeros around it.
abbrev text : List ℕ
text = 0 ∷ 111 ∷ 98 ∷ 102 ∷ 117 ∷ 115 ∷ 99 ∷ 97 ∷ 116 ∷ 101 ∷ 100 ∷ 0 ∷ 0 ∷ 0 ∷ []

IsBytes-all : (mem : List ℕ) → all (λ b. ltb b 256) mem ≡ true → IsBytes mem
IsBytes-all [] h i b at = absurd (cc)
IsBytes-all (x ∷ mem) h zero b at = ground (arith, h, at)
IsBytes-all (x ∷ mem) h (suc i) b at = IsBytes-all mem (ground (arith, h)) i b at

f17-found_example : f17 14 text 1 100 13 ≡ some (ok (found 1 100 (read_at text 1 13)))
f17-found_example =
    f17-found 14 1 100 13 text (IsBytes-all text refl) (omega arith) (omega arith) (omega arith)
      (omega arith) (omega arith)

f18-before_example : f18 14 text 1 13 ≡ some (ok (before 0 (read_at text 1 13)))
f18-before_example =
    f18-before 14 1 13 text (IsBytes-all text refl) (omega arith) (omega arith) (omega arith)
      (omega arith) (omega arith)

-- Room in front of the text, so that the two addresses differ in their lowest digits.
abbrev two_ranges : List ℕ
two_ranges = replicate 17 0 ++ text

f21-memory_copy_example :
    (out : List ℕ) × (f21 11 two_ranges 3 18 10 ≡ some (ok (3, out)))
    × ((if ltb 10 512 then memory_copy two_ranges two_ranges 3 18 10 else ok two_ranges) ≡ ok out)
f21-memory_copy_example =
    f21-memory_copy 11 3 18 10 two_ranges (IsBytes-all two_ranges refl) (omega arith) (omega arith)
      (omega arith) (inr (omega arith)) (omega arith)

abbrev read_name : Option (Checked (ℕ × List ℕ)) → List ℕ
read_name none = []
read_name (some (trap t)) = []
read_name (some (ok (p, out))) = read_at out p 10

copied_name : read_name (f21 11 two_ranges 3 18 10) ≡ read_at text 1 10
unfolding f21 f21_short f21_unaligned f21_quads f21_tail f21_bytes copy_step copy_each load_unsigned
    store in_range to_bytes from_bytes
copied_name = refl

-- A stream at 0 with its buffer from 100 on, where one byte stands, and "obfuscated" at 85.
abbrev written_to : W2cSquanchy
written_to = record {
  env_instance = 1;
  wasi_instance = 2;
  g0 = 65536;
  g1 = 0;
  g2 = 0;
  g3 = 0;
  memory =
      replicate 16 0
      ++ (130 ∷ 0 ∷ 0 ∷ 0 ∷ 101 ∷ 0 ∷ 0 ∷ 0 ∷ [])
      ++ replicate 56 0
      ++ (255 ∷ 255 ∷ 255 ∷ 255 ∷ 0 ∷ [])
      ++ read_at text 1 10
      ++ replicate 40 0;
  indirect_function_table = [];
}

abbrev no_writer : Callee
no_writer f i w p0 p1 p2 = trap unreachable

f25-buffers_example :
    (copied : List ℕ) × (out : List ℕ) × (memory_copy written_to.memory written_to.memory 101 85 10
      ≡ ok copied)
    × (i32_store copied 20 111 ≡ ok out)
    × (f25 11 no_writer written_to 0 85 10
        ≡ some (ok (if bit_and 0 32 == 0 then record written_to { memory = out } else written_to)))
    × (f22 11 no_writer written_to 85 10 0 ≡ some (ok (record written_to { memory = out }, 10)))
unfolding from_bytes in_range
f25-buffers_example =
    f25-buffers 11 no_writer written_to 85 10 0 130 101 4294967295 (omega arith)
      (IsBytes-all written_to.memory refl) (omega arith) (omega arith) (omega arith)
      (load_unsigned-ok 4 written_to.memory 16 (omega arith) (omega arith))
      (load_unsigned-ok 4 written_to.memory 20 (omega arith) (omega arith))
      (load_unsigned-ok 4 written_to.memory 80 (omega arith) (omega arith)) (omega arith)
      (omega arith) (omega arith) (omega arith) (inl (omega arith)) (inl (omega arith))
      (inl (omega arith)) 0 (load_unsigned-ok 1 written_to.memory 0 (omega arith) (omega arith))

-- The same with a stack that reaches from 512 downwards.
abbrev with_stack : W2cSquanchy
with_stack = record written_to { g0 = 512; memory = written_to.memory ++ replicate 400 0 }

f31-pads_example :
    f31 1 11 no_writer with_stack 0 32 12 2 0
    ≡ and_run
        (and_run
          (f9 11 with_stack.memory 256 32 (if ltb 10 256 then 10 else 256))
          λ r. blocks_out 0 11 no_writer (record with_stack { g0 = 256; memory = r.1 }) 0 256 10)
        (λ v. some (ok (record v { g0 = 512 })))
f31-pads_example =
    f31-pads 1 11 no_writer with_stack 0 32 12 2 0 (omega arith) (omega arith) refl (omega arith)
      (omega arith) (omega arith)
