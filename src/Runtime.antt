-- ===== src/Runtime.antt =====
-- The runtime that is linked into a module, runtime/wasm_runtime.cpp: the functions that wasm2c's
-- code calls to allocate memories and tables. The structs are those of runtime/wasm-rt.h.
pub mod Env
pub mod Laws
use squanchy.Base.{ℕ, ◌*◌, String, Bool, true, u64}

-- Where a pointer of the runtime points: a block of the heap, a global of the runtime, memory of
-- the calling frame of the given size, or a member of the environment.
pub data Pointer : Type 0 where
  null : Pointer
  heap : ℕ → Pointer
  symbol : String → Pointer
  frame : (bytes : ℕ) → Pointer
  member : String → Pointer

-- `wasm_rt_memory_t`; its member `data` is `bytes`.
pub record Memory : Type 0 where
  pub bytes : Pointer
  pub pages : ℕ
  pub max_pages : ℕ
  pub size : ℕ
  pub is64 : Bool

-- `wasm_rt_funcref_table_t` and `wasm_rt_externref_table_t`; the member `data` is `elements`.
pub record Table : Type 0 where
  pub elements : Pointer
  pub max_size : ℕ
  pub size : ℕ

abbrev pub page_size : ℕ
page_size = 65536

-- `calloc` is the C library's: the block for a size and a count.
unfoldable pub allocate_memory :
    (calloc : ℕ → ℕ → Pointer) → Memory → (initial_pages max_pages : ℕ) → (is64 : Bool) → Memory
allocate_memory calloc memory initial_pages max_pages is64 = record {
  bytes = calloc (u64 (initial_pages * page_size)) 1;
  pages = initial_pages;
  max_pages = max_pages;
  size = u64 (initial_pages * page_size);
  is64 = is64;
}

-- `USE_RAM` is not defined, so nothing is freed.
unfoldable pub free_memory : Memory → Memory
free_memory memory = record memory { bytes = null }

abbrev pub is_initialized : Bool
is_initialized = true

unfoldable pub allocate_funcref_table : Table → (elements max_elements : ℕ) → Table
allocate_funcref_table table elements max_elements = record {
  elements = symbol "FUNCREF_TABLE";
  max_size = max_elements;
  size = elements;
}

unfoldable pub allocate_externref_table : Table → (elements max_elements : ℕ) → Table
allocate_externref_table table elements max_elements = record {
  elements = symbol "EXTERNREF_TABLE";
  max_size = max_elements;
  size = elements;
}
