-- ===== src/Tests/Memories.antt =====
-- The memory and table helpers of samples/obf_1/obf_w2c.c on a small memory and table.
use squanchy.Base.{
  ℕ, ◌+◌, ◌%◌, ◌^◌, ◌≤◌, ◌<◌, true, none, some, List, [], ◌∷◌, ◌≡◌, ◌≢◌, ◌⊎◌, ◌↔◌, map, arith,
  length, get_elem?,
}
use squanchy.Wasm2c.{ok, read_at}
use squanchy.Wasm2c.Memory.{load_unsigned, store}
use squanchy.Wasm2c.Memory.Laws.{store-load}
use squanchy.Wasm2c.Table.{
  Funcref, funcref_null_value, check_call_indirect, ElemExpr, ref_func, ref_null, elem_value,
  funcref_table_init,
}
use squanchy.Wasm2c.Table.Laws.{funcref_table_init-writes, check_call_indirect-exact}

abbrev memory : List ℕ
memory = 1 ∷ 2 ∷ 3 ∷ 4 ∷ 5 ∷ 6 ∷ 7 ∷ 8 ∷ []

store-load_example :
    (mem : List ℕ) × (store 4 memory 2 4294967299 ≡ ok mem)
    × (load_unsigned 4 mem 2 ≡ ok (4294967299 % 256 ^ 4))
    × (length mem ≡ length memory)
    × ((i : ℕ) → (i < 2) ⊎ (2 + 4 ≤ i) → get_elem? mem i ≡ get_elem? memory i)
store-load_example = store-load 4 2 4294967299 memory (omega arith) (omega arith)

abbrev table : List Funcref
table = funcref_null_value ∷ funcref_null_value ∷ funcref_null_value ∷ []

abbrev segment : List ElemExpr
segment = ref_func (some "t0") (some "f10") none 0 ∷ ref_null ∷ []

funcref_table_init-writes_example :
    (dest : List Funcref) × (funcref_table_init 16 (λ k. funcref_null_value) table segment 1 0 2
      ≡ ok dest)
    × (length dest ≡ length table)
    × (read_at dest 1 2 ≡ map (elem_value 16 (λ k. funcref_null_value)) (read_at segment 0 2))
    × ((i : ℕ) → (i < 1) ⊎ (1 + 2 ≤ i) → get_elem? dest i ≡ get_elem? table i)
funcref_table_init-writes_example =
    funcref_table_init-writes 16 (λ k. funcref_null_value) table segment 1 0 2 (omega arith)
      (omega arith)

check_call_indirect-exact_example :
    (check_call_indirect table (some "t0") 1 ≡ true)
    ↔ ((r : Funcref) × (get_elem? table 1 ≡ some r) × (r.func ≢ none) × (some "t0" ≡ r.func_type))
check_call_indirect-exact_example = check_call_indirect-exact table (some "t0") 1
