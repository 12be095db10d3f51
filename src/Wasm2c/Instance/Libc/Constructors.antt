-- ===== src/Wasm2c/Instance/Libc/Constructors.antt =====
-- What the constructors of samples/obf_1/obf_w2c.c leave behind, and how an error is reported.
use squanchy.Base.{
  ℕ, ◌+◌, ◌*◌, ◌^◌, ◌≤◌, ◌<◌, true, false, ◌≡◌, sym, ap, ◌∙◌, arith, inl, inr, ◌⊎◌, List, length,
  get_elem?, ◌==◌, Bool-cases,
}
use squanchy.Wasm2c.{Checked, ok, trap, read_at}
use squanchy.Wasm2c.Arrays.Reads.{read_at-same}
use squanchy.Wasm2c.Memory.{from_bytes, load_unsigned, i32_load, i32_store}
use squanchy.Wasm2c.Memory.Laws.{store-load, load_unsigned-ok}
use squanchy.Wasm2c.Instance.{W2cSquanchy}
use squanchy.Wasm2c.Instance.Data.{d0}
use squanchy.Wasm2c.Instance.Startup.{Fresh}
use squanchy.Wasm2c.Instance.Stack.{
  StackOk, stack_init, stack_init-StackOk, stack_get_free, free_value,
}
use squanchy.Wasm2c.Instance.Libc.{f19, f36, f37, f38, f40, call_ctors, stored}

-- Two loads of the same bytes.
load-same :
    (n addr : ℕ) (mem mem' : List ℕ)
    → addr + n ≤ length mem
    → length mem' ≡ length mem
    → length mem < 2 ^ 64
    → ((i : ℕ) → i < n → get_elem? mem' (addr + i) ≡ get_elem? mem (addr + i))
    → load_unsigned n mem' addr ≡ load_unsigned n mem addr
load-same n addr mem mem' fits len small same =
    load_unsigned-ok n mem' addr (omega (arith, fits, len)) (omega (arith, small, len))
    ∙ (ap (λ (bs : List ℕ). ok (from_bytes bs))
          (read_at-same mem' mem addr n (omega (arith, fits, len)) fits same)
        ∙ sym (load_unsigned-ok n mem addr fits small))

f40-run :
    (w : W2cSquanchy) (mem₁ mem₂ : List ℕ)
    → i32_store w.memory 69680 69560 ≡ ok mem₁
    → i32_store mem₁ 69608 42 ≡ ok mem₂
    → f40 w ≡ ok (record w { memory = mem₂ })
unfolding f40 f38 f37
f40-run w mem₁ mem₂ first second =
    ap
      (λ (r : Checked (List ℕ)). elim (stored w r) [
        | trap t ↦ trap t
        | ok w' ↦ stored w' (i32_store w'.memory 69608 42)
      ])
      first
    ∙ ap (stored (record w { memory = mem₁ })) second

f40-stores :
    (w : W2cSquanchy)
    → length w.memory ≡ 258 * 65536
    → (mem : List ℕ) × (f40 w ≡ ok (record w { memory = mem }))
      × (length mem ≡ 258 * 65536)
      × (i32_load mem 69680 ≡ ok 69560)
      × (i32_load mem 69608 ≡ ok 42)
      × ((i : ℕ) → i < 69608 → get_elem? mem i ≡ get_elem? w.memory i)
f40-stores w size =
    let (mem₁, runs₁, loads₁, len₁, others₁) =
      store-load 4 69680 69560 w.memory (omega (arith, size)) (omega (arith, size)) in
    let (mem₂, runs₂, loads₂, len₂, others₂) =
      store-load 4 69608 42 mem₁ (omega (arith, size, len₁)) (omega (arith, size, len₁)) in
    (
      mem₂,
      f40-run w mem₁ mem₂ runs₁ runs₂,
      len₂ ∙ (len₁ ∙ size),
      load-same 4 69680 mem₁ mem₂ (omega (arith, size, len₁)) len₂ (omega (arith, size, len₁))
            (λ i small. others₂ (69680 + i) (inr (omega arith)))
          ∙ loads₁,
      loads₂,
      λ i small. others₂ i (inl small) ∙ others₁ i (inl (omega (arith, small))),
    )

-- On an instance as it is after the instantiation the constructors do not trap: the stack of 65536
-- bytes is set up and free, the two words for the library are stored, and the first data segment
-- is as it was.
pub call_ctors-Fresh :
    (self env wasi : ℕ) (w : W2cSquanchy)
    → Fresh self env wasi w
    → (w' : W2cSquanchy) × (call_ctors w ≡ ok w')
      × StackOk w'
      × (stack_get_free w' ≡ 65536)
      × (i32_load w'.memory 69680 ≡ ok 69560)
      × (i32_load w'.memory 69608 ≡ ok 42)
      × (read_at w'.memory 65536 2788 ≡ d0)
unfolding call_ctors stack_init
call_ctors-Fresh self env wasi w fresh =
    let (imported, hosted, a0, a1, a2, a3, size, first, second, table) = fresh in
    let (mem, runs, len, one, two, others) = f40-stores (stack_init w) size in
    let w' : W2cSquanchy = record (stack_init w) { memory = mem } in
    let well : StackOk w' = stack_init-StackOk w a0 in
    (
      w',
      runs,
      well,
      free_value w' well ∙ omega (arith, a0),
      one,
      two,
      read_at-same mem w.memory 65536 2788 (omega (arith, len)) (omega (arith, size))
            (λ i small. others (65536 + i) (omega (arith, small)))
          ∙ first,
    )

f36-none : (w : W2cSquanchy) (p0 : ℕ) → (p0 == 0) ≡ true → f36 w p0 ≡ ok (w, 0)
unfolding f36
f36-none w p0 e = ground (arith, e)

f36-some :
    (w : W2cSquanchy) (p0 : ℕ) (mem : List ℕ)
    → (p0 == 0) ≡ false
    → i32_store w.memory 69524 p0 ≡ ok mem
    → f36 w p0 ≡ ok (record w { memory = mem }, 4294967295)
unfolding f36 f19
f36-some w p0 mem e runs = ground (arith, e, runs)

-- `f36` returns 0 for 0; for any other number it stores the number as the error number and returns
-- -1, and the rest of the memory is as it was.
pub f36-errno :
    (w : W2cSquanchy) (p0 : ℕ)
    → p0 < 2 ^ 32
    → 69528 ≤ length w.memory
    → length w.memory < 2 ^ 64
    → ((p0 ≡ 0) × (f36 w p0 ≡ ok (w, 0)))
      ⊎ ((mem : List ℕ) × (f36 w p0 ≡ ok (record w { memory = mem }, 4294967295))
          × (i32_load mem (f19 w) ≡ ok p0)
          × ((i : ℕ) → (i < 69524) ⊎ (69528 ≤ i) → get_elem? mem i ≡ get_elem? w.memory i))
unfolding f19
f36-errno w p0 word fits small = elim (Bool-cases (p0 == 0)) [
  | inl zero_ ↦ inl (ground (arith, zero_), f36-none w p0 zero_)
  | inr other ↦
      let (mem, runs, loads, len, others) = store-load 4 69524 p0 w.memory fits small in
      inr (mem, f36-some w p0 mem other runs, loads ∙ ap ok (omega (arith, word)), others)
]
