-- ===== src/Tests/Runtimes.antt =====
-- The environment of runtime/wasm_runtime.cpp with the constants that its comment shows.
use squanchy.Base.{ℕ, ◌*◌, ◌≤◌, false, ◌≡◌, arith}
use squanchy.Runtime.{Pointer, null, heap, Memory, page_size}
use squanchy.Runtime.Env.{EnvConstants, W2cEnv, env_memory}
use squanchy.Runtime.Laws.{env_memory-size}

abbrev calloc : ℕ → ℕ → Pointer
calloc size n = heap size

abbrev constants : EnvConstants
constants = record {
  min_env_memory = 4096;
  max_env_memory = 4096;
  is64_env_memory = 0;
  min_env_table = 6;
  max_env_table = 6;
}

abbrev env : W2cEnv
env = record {
  dynamictop_ptr = null;
  memory = record { bytes = null; pages = 0; max_pages = 0; size = 0; is64 = false };
  memory_base = 0;
  funcref_table = record { elements = null; max_size = 0; size = 0 };
  funcref_table_base = 0;
  stacktop = null;
  stack = null;
}

env_memory-size_example :
    let memory : Memory = (env_memory calloc constants env).0.memory in
    (memory.size ≡ memory.pages * page_size) × (1 ≤ memory.pages)
env_memory-size_example = env_memory-size calloc constants env (omega arith)
