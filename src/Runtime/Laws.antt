-- ===== src/Runtime/Laws.antt =====
-- What the memory of the environment of runtime/wasm_runtime.cpp is, whatever calls the module makes.
use squanchy.Base.{ℕ, ◌*◌, ◌/◌, ◌^◌, ◌≤◌, ◌<◌, List, [], ◌∷◌, ◌≡◌, refl, arith, u64}
use squanchy.Runtime.{Pointer, Memory, page_size, allocate_memory}
use squanchy.Runtime.Env.{
  EnvConstants, W2cEnv, Import, at_least_one, env_memory, env_dynamictop_ptr, env_stacktop,
  env_stack_max, env_memory_base, env_table, env_table_base, call_import, call_imports,
}

pages-fit :
    (n : ℕ)
    → n < 2 ^ 64
    → u64 (at_least_one (n / page_size) * page_size) ≡ at_least_one (n / page_size) * page_size
pages-fit n small = ground (arith, small)

-- The memory's size in bytes, for a constant that is a 64-bit number, is its page count times the
-- page size without a wrap-around, and there is a page.
pub env_memory-size :
    (calloc : ℕ → ℕ → Pointer) (consts : EnvConstants) (env : W2cEnv)
    → consts.min_env_memory < 2 ^ 64
    → let memory : Memory = (env_memory calloc consts env).0.memory in
      (memory.size ≡ memory.pages * page_size) × (1 ≤ memory.pages)
unfolding env_memory allocate_memory
env_memory-size calloc consts env small =
    let n : ℕ = consts.min_env_memory in (pages-fit n small, ground arith)

-- Any constant below 65536 gives a memory of one page.
pub env_memory-one_page :
    (calloc : ℕ → ℕ → Pointer) (consts : EnvConstants) (env : W2cEnv)
    → consts.min_env_memory < page_size
    → (env_memory calloc consts env).0.memory.pages ≡ 1
unfolding env_memory allocate_memory
env_memory-one_page calloc consts env small = ground (arith, small)

-- The size of a memory is its page count times the page size, as a 64-bit number.
abbrev pub SizeAgrees : W2cEnv → Type 0
SizeAgrees env = env.memory.size ≡ u64 (env.memory.pages * page_size)

call_import-SizeAgrees :
    (calloc : ℕ → ℕ → Pointer) (consts : EnvConstants) (i : Import) (env : W2cEnv)
    → SizeAgrees env
    → SizeAgrees (call_import calloc consts i env).0
unfolding call_import env_memory allocate_memory env_dynamictop_ptr env_stacktop env_stack_max
    env_memory_base env_table env_table_base
call_import-SizeAgrees calloc consts Import.dynamictop env h = h
call_import-SizeAgrees calloc consts Import.stacktop env h = h
call_import-SizeAgrees calloc consts Import.stack_max env h = h
call_import-SizeAgrees calloc consts Import.memory env h = refl
call_import-SizeAgrees calloc consts Import.memory_base env h = h
call_import-SizeAgrees calloc consts Import.table env h = h
call_import-SizeAgrees calloc consts Import.table_base env h = h

-- Whatever imports a module calls, in whatever order, the size of the environment's memory stays
-- its page count times the page size, as a 64-bit number.
pub call_imports-SizeAgrees :
    (calloc : ℕ → ℕ → Pointer) (consts : EnvConstants) (is : List Import) (env : W2cEnv)
    → SizeAgrees env
    → SizeAgrees (call_imports calloc consts is env)
unfolding call_imports
call_imports-SizeAgrees calloc consts [] env h = h
call_imports-SizeAgrees calloc consts (i ∷ is) env h =
    call_imports-SizeAgrees calloc consts is (call_import calloc consts i env).0
      (call_import-SizeAgrees calloc consts i env h)
