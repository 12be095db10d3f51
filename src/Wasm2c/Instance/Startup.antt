-- ===== src/Wasm2c/Instance/Startup.antt =====
-- What an instance of samples/obf_1/obf_w2c.c holds after it was instantiated.
use squanchy.Base.{
  ℕ, ◌+◌, ◌*◌, ◌^◌, ◌≤◌, ◌<◌, ◌≡◌, refl, sym, ap, ap₂, zero, suc, ◌∙◌, arith, inl, some, List, ◌∷◌,
  [], map, length, take, get_elem?,
}
use squanchy.Wasm2c.{Checked, ok, trap, in_range, write_at, read_at}
use squanchy.Wasm2c.Arrays.{read_at-write_at, length-write_at}
use squanchy.Wasm2c.Arrays.Reads.{read_at-apart}
use squanchy.Wasm2c.Table.{Funcref, funcref_null_value, elem_value}
use squanchy.Wasm2c.Table.Laws.{funcref_table_init-writes}
use squanchy.Wasm2c.Instance.{
  W2cSquanchy, Runtime, load_data, init_globals, init_memories, init_tables, init_instance_import,
  instantiate, e0,
}
use squanchy.Wasm2c.Instance.Data.{d0, d1}

load_data-ok :
    (mem segment : List ℕ) (o s : ℕ)
    → take s segment ≡ segment
    → o + s ≤ length mem
    → length mem < 2 ^ 64
    → load_data mem o segment s ≡ ok (write_at mem o segment)
unfolding load_data in_range
load_data-ok mem segment o s whole fits small =
    ground (arith, fits, small) ∙ ap (λ (t : List ℕ). ok (write_at mem o t)) whole

-- The memory with its data segments.
abbrev pub filled : List ℕ → List ℕ
filled mem = write_at (write_at mem 65536 d0) 68328 d1

pub segments :
    (mem : List ℕ)
    → length mem ≡ 258 * 65536
    → (length (filled mem) ≡ 258 * 65536)
      × (read_at (filled mem) 65536 2788 ≡ d0)
      × (read_at (filled mem) 68328 148 ≡ d1)
segments mem len =
    let mem₁ : List ℕ = write_at mem 65536 d0 in
    let len₁ : length mem₁ ≡ length mem = length-write_at mem d0 65536 (omega (arith, len)) in
    (
      length-write_at mem₁ d1 68328 (omega (arith, len, len₁)) ∙ (len₁ ∙ len),
      read_at-apart mem₁ d1 68328 65536 2788 (omega (arith, len, len₁)) (omega arith)
          ∙ read_at-write_at mem d0 65536 (omega (arith, len)),
      read_at-write_at mem₁ d1 68328 (omega (arith, len, len₁)),
    )

init_memories-ok :
    (rt : Runtime) (w : W2cSquanchy)
    → init_memories rt w ≡ ok (record w { memory = filled (rt.allocate_memory 258 258) })
unfolding init_memories
init_memories-ok rt w =
    let mem : List ℕ = rt.allocate_memory 258 258 in
    let len : length mem ≡ 258 * 65536 = rt.length-allocate_memory 258 258 in
    let len₁ : length (write_at mem 65536 d0) ≡ length mem =
      length-write_at mem d0 65536 (omega (arith, len)) in
    let first = load_data-ok mem d0 65536 2788 refl (omega (arith, len)) (omega (arith, len)) in
    let second =
      load_data-ok (write_at mem 65536 d0) d1 68328 148 refl (omega (arith, len, len₁))
        (omega (arith, len, len₁)) in
    ap
      (λ (r : Checked (List ℕ)). elim r [
        | trap t ↦ trap t
        | ok m ↦ elim (load_data m 68328 d1 148) [
          | trap t ↦ trap t
          | ok m' ↦ ok (record w { memory = m' })
        ]
      ])
      first
    ∙ ap
        (λ (r : Checked (List ℕ)). elim r [
          | trap t ↦ trap t
          | ok m' ↦ ok (record w { memory = m' })
        ])
        second

-- The globals and the imports of an instance that was made, its memory and its table.
abbrev pub Fresh : (self env wasi : ℕ) → W2cSquanchy → Type 0
Fresh self env wasi w =
    (w.env_instance ≡ env)
    × (w.wasi_instance ≡ wasi)
    × (w.g0 ≡ 65536)
    × (w.g1 ≡ 0)
    × (w.g2 ≡ 0)
    × (w.g3 ≡ 0)
    × (length w.memory ≡ 258 * 65536)
    × (read_at w.memory 65536 2788 ≡ d0)
    × (read_at w.memory 68328 148 ≡ d1)
    × (w.indirect_function_table
        ≡ funcref_null_value ∷ map (elem_value self (λ k. funcref_null_value)) e0)

take-all : (n : ℕ) (xs : List Funcref) → length xs ≡ n → take n xs ≡ xs
take-all zero [] h = refl
take-all zero (x ∷ xs) h = absurd (omega (arith, h))
take-all (suc n) [] h = refl
take-all (suc n) (x ∷ xs) h = ap (λ (t : List Funcref). x ∷ t) (take-all n xs (omega (arith, h)))

first_and_rest :
    (table : List Funcref) (first : Funcref) (others : List Funcref)
    → length table ≡ 6
    → get_elem? table 0 ≡ some first
    → read_at table 1 5 ≡ others
    → table ≡ first ∷ others
first_and_rest [] first others six there rest = absurd (omega (arith, six))
first_and_rest (x ∷ xs) first others six there rest =
    let e : some x ≡ some first = there in
    let e' : x ≡ first = cc in
    ap₂ (λ (y : Funcref) (ys : List Funcref). y ∷ ys) e'
      (sym (take-all 5 xs (omega (arith, six))) ∙ rest)

init_tables-ok :
    (rt : Runtime) (self : ℕ) (w : W2cSquanchy)
    → (table : List Funcref) × (init_tables rt self w
        ≡ ok (record w { indirect_function_table = table }))
      × (table ≡ funcref_null_value ∷ map (elem_value self (λ k. funcref_null_value)) e0)
unfolding init_tables
init_tables-ok rt self w =
    let fresh : List Funcref = rt.allocate_funcref_table 6 6 in
    let len : length fresh ≡ 6 = rt.length-allocate_funcref_table 6 6 in
    let (table, done, same_length, values, others) =
      funcref_table_init-writes self (λ k. funcref_null_value) fresh e0 1 0 5 (omega (arith, len))
        (omega arith) in
    (
      table,
      ap
          (λ (r : Checked (List Funcref)). elim r [
            | trap t ↦ trap t
            | ok table' ↦ ok (record w { indirect_function_table = table' })
          ])
          done,
      first_and_rest table funcref_null_value (map (elem_value self (λ k. funcref_null_value)) e0)
          (same_length ∙ len) (others 0 (inl (omega arith)) ∙ rt.null_elements 6 6 0 (omega arith))
          values,
    )

-- With a runtime that gives memories and tables of the size asked for, the tables' elements null,
-- and whatever the struct held before, the instantiation does not trap: the stack
-- pointer is at 65536, the memory of 258 pages holds both data segments, and the table of six
-- elements the functions of the element segment from its second element on.
pub instantiate-Fresh :
    (rt : Runtime) (self env wasi : ℕ) (w : W2cSquanchy)
    → (w' : W2cSquanchy) × (instantiate rt self env wasi w ≡ ok w') × Fresh self env wasi w'
unfolding instantiate init_globals init_instance_import
instantiate-Fresh rt self env wasi w =
    let w₁ : W2cSquanchy = init_globals (init_instance_import env wasi w) in
    let (table, tables, values) = init_tables-ok rt self w₁ in
    let w₂ : W2cSquanchy = record w₁ { indirect_function_table = table } in
    let mem : List ℕ = rt.allocate_memory 258 258 in
    let (size, first, second) = segments mem (rt.length-allocate_memory 258 258) in
    (
      record w₂ { memory = filled mem },
      ap (λ (r : Checked W2cSquanchy). elim r [ trap t ↦ trap t | ok w' ↦ init_memories rt w' ])
            tables
          ∙ init_memories-ok rt w₂,
      (refl, refl, refl, refl, refl, refl, size, first, second, values),
    )
