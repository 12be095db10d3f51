-- ===== src/Wasm2c/Instance.antt =====
-- An instance of the module of samples/obf_1/obf_w2c.c, the struct of obf_w2c.h, and how it comes
-- into being: the globals, the memory with its data segments, the table with its element segment,
-- and the constructors. A pointer of the host is a number.
pub mod Data
pub mod Startup
pub mod Stack
pub mod Calls
pub mod Libc
use squanchy.Base.{
  ℕ, ◌+◌, ◌*◌, ◌^◌, ◌<◌, ◌≡◌, Option, none, some, List, [], ◌∷◌, if◌then◌else◌, length, take,
  get_elem?,
}
use squanchy.Wasm2c.{Trap, oob, Checked, ok, trap, in_range, write_at}
use squanchy.Wasm2c.Table.{Funcref, ElemExpr, ref_func, funcref_null_value, funcref_table_init}
use squanchy.Wasm2c.Types.{t0, t2, t6, t9, t10}
use squanchy.Wasm2c.Memory.{i32_store}
use Data.{d0, d1}

-- `w2c_squanchy`
pub record W2cSquanchy : Type 0 where
  pub env_instance : ℕ
  pub wasi_instance : ℕ
  pub g0 : ℕ
  pub g1 : ℕ
  pub g2 : ℕ
  pub g3 : ℕ
  pub memory : List ℕ
  pub indirect_function_table : List Funcref

-- A runtime that the module can be linked with: it gives new memories and tables of the size that is
-- asked for, and tables whose elements are null. The runtime of runtime/wasm_runtime.cpp gives the
-- array FUNCREF_TABLE, whose elements are null as long as nothing has been written to it.
pub record Runtime : Type 0 where
  pub allocate_memory : (initial_pages max_pages : ℕ) → List ℕ
  pub allocate_funcref_table : (elements max_elements : ℕ) → List Funcref
  pub length-allocate_memory :
      (initial_pages max_pages : ℕ)
      → length (allocate_memory initial_pages max_pages) ≡ initial_pages * 65536
  pub length-allocate_funcref_table :
      (elements max_elements : ℕ) → length (allocate_funcref_table elements max_elements) ≡ elements
  pub null_elements :
      (elements max_elements i : ℕ)
      → i < elements
      → get_elem? (allocate_funcref_table elements max_elements) i ≡ some funcref_null_value

unfoldable pub init_globals : W2cSquanchy → W2cSquanchy
init_globals w = record w { g0 = 65536; g1 = 0; g2 = 0; g3 = 0 }

-- `LOAD_DATA`
unfoldable pub load_data : List ℕ → (o : ℕ) → List ℕ → (s : ℕ) → Checked (List ℕ)
load_data mem o segment s =
    if in_range (length mem) o s then ok (write_at mem o (take s segment)) else trap oob

unfoldable pub init_memories : Runtime → W2cSquanchy → Checked W2cSquanchy
init_memories rt w = elim (load_data (rt.allocate_memory 258 258) 65536 d0 2788) [
  | trap t ↦ trap t
  | ok mem ↦ elim (load_data mem 68328 d1 148) [
    | trap t ↦ trap t
    | ok mem' ↦ ok (record w { memory = mem' })
  ]
]

-- `elem_segment_exprs_w2c_squanchy_e0`
abbrev pub e0 : List ElemExpr
e0 =
    ref_func (some t2) (some "w2c_squanchy_f7") none 0
    ∷ ref_func (some t0) (some "w2c_squanchy_f6") none 0
    ∷ ref_func (some t6) (some "w2c_squanchy_f8") none 0
    ∷ ref_func (some t9) (some "w2c_squanchy_f33") none 0
    ∷ ref_func (some t10) (some "w2c_squanchy_f34") none 0
    ∷ []

-- No expression of the segment reads a global. What the new table holds is up to the runtime.
unfoldable pub init_tables : Runtime → (self : ℕ) → W2cSquanchy → Checked W2cSquanchy
init_tables rt self w =
    elim (funcref_table_init self (λ k. funcref_null_value) (rt.allocate_funcref_table 6 6) e0 1 0
      5) [ trap t ↦ trap t | ok table ↦ ok (record w { indirect_function_table = table }) ]

unfoldable pub init_instance_import : (env wasi : ℕ) → W2cSquanchy → W2cSquanchy
init_instance_import env wasi w = record w { env_instance = env; wasi_instance = wasi }

-- `wasm2c_squanchy_instantiate` on an initialized runtime; the segments' instances are empty.
unfoldable pub instantiate : Runtime → (self env wasi : ℕ) → W2cSquanchy → Checked W2cSquanchy
instantiate rt self env wasi w =
    elim (init_tables rt self (init_globals (init_instance_import env wasi w))) [
      | trap t ↦ trap t
      | ok w' ↦ init_memories rt w'
    ]
