-- ===== src/Runtime/Env.antt =====
-- `struct w2c_env` and the functions on it that wasm2c's code imports, runtime/wasm_runtime.cpp.
-- Each gives the environment after the call and the pointer that it returns.
use squanchy.Base.{ℕ, ◌/◌, true, List, [], ◌∷◌, ◌==◌, if◌then◌else◌}
use squanchy.Runtime.{
  Pointer, symbol, frame, member, Memory, Table, page_size, allocate_memory, allocate_funcref_table,
}

-- The constants that wasm2c generates for the imports.
pub record EnvConstants : Type 0 where
  pub min_env_memory : ℕ
  pub max_env_memory : ℕ
  pub is64_env_memory : ℕ
  pub min_env_table : ℕ
  pub max_env_table : ℕ

-- The struct, and the global `Stack`.
pub record W2cEnv : Type 0 where
  pub dynamictop_ptr : Pointer
  pub memory : Memory
  pub memory_base : ℕ
  pub funcref_table : Table
  pub funcref_table_base : ℕ
  pub stacktop : Pointer
  pub stack : Pointer

unfoldable pub env_dynamictop_ptr : W2cEnv → W2cEnv × Pointer
env_dynamictop_ptr env = (env, env.dynamictop_ptr)

-- The frame's 10000 bytes are gone when the caller returns, as far as the function is inlined.
unfoldable pub env_stacktop : W2cEnv → W2cEnv × Pointer
env_stacktop env = (record env { stacktop = symbol "Stack"; stack = frame 10000 }, symbol "Stack")

unfoldable pub env_stack_max : W2cEnv → W2cEnv × Pointer
env_stack_max env = (env, symbol "STACK_MAX")

-- At least one page.
abbrev pub at_least_one : ℕ → ℕ
at_least_one pages = if pages == 0 then 1 else pages

unfoldable pub env_memory : (ℕ → ℕ → Pointer) → EnvConstants → W2cEnv → W2cEnv × Pointer
env_memory calloc consts env =
    let initial_pages = at_least_one (consts.min_env_memory / page_size) in
    let max_pages = at_least_one (consts.max_env_memory / page_size) in
    (
      record env {
        memory = allocate_memory calloc env.memory initial_pages max_pages true;
        dynamictop_ptr = symbol "DYNAMICTOP_PTR";
      },
      member "memory",
    )

unfoldable pub env_memory_base : W2cEnv → W2cEnv × Pointer
env_memory_base env = (record env { memory_base = 0 }, member "memoryBase")

unfoldable pub env_table : EnvConstants → W2cEnv → W2cEnv × Pointer
env_table consts env = (
  record env {
    funcref_table =
        allocate_funcref_table env.funcref_table consts.min_env_table consts.max_env_table;
  },
  member "funcref_table",
)

unfoldable pub env_table_base : W2cEnv → W2cEnv × Pointer
env_table_base env = (record env { funcref_table_base = 0 }, member "funcref_tableBase")

-- The imports that a module may call, and one call.
pub data Import : Type 0 where
  dynamictop stacktop stack_max memory memory_base table table_base : Import

unfoldable pub call_import : (ℕ → ℕ → Pointer) → EnvConstants → Import → W2cEnv → W2cEnv × Pointer
call_import calloc consts Import.dynamictop env = env_dynamictop_ptr env
call_import calloc consts Import.stacktop env = env_stacktop env
call_import calloc consts Import.stack_max env = env_stack_max env
call_import calloc consts Import.memory env = env_memory calloc consts env
call_import calloc consts Import.memory_base env = env_memory_base env
call_import calloc consts Import.table env = env_table consts env
call_import calloc consts Import.table_base env = env_table_base env

-- The environment after a sequence of calls.
unfoldable pub call_imports : (ℕ → ℕ → Pointer) → EnvConstants → List Import → W2cEnv → W2cEnv
call_imports calloc consts [] env = env
call_imports calloc consts (i ∷ is) env =
    call_imports calloc consts is (call_import calloc consts i env).0
