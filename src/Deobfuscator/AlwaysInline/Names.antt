-- ===== src/Deobfuscator/AlwaysInline/Names.antt =====
-- The names that `setFunctionsAlwayInline` of src/Deobfuscator.cpp marks, in the order of its calls.
use Prim.Native.String.{◌++◌ as append}
use squanchy.Base.{String, List, [], ◌∷◌, ◌++◌}
use squanchy.Deobfuscator.{Deobfuscator}
use squanchy.Deobfuscator.AlwaysInline.{set_all}

unfoldable pub instantiate_name : String → String
instantiate_name module_name = append "wasm2c_" (append module_name "_instantiate")

abbrev pub initializer_names : List String
initializer_names =
    "wasm_rt_is_initialized" ∷ "init_instance_import" ∷ "init_globals" ∷ "init_tables"
    ∷ "funcref_table_init" ∷ "init_memories" ∷ "init_elem_instances" ∷ "init_data_instances"
    ∷ "load_data" ∷ []

-- `LoadStoreFunctions`, older wasm2c
abbrev pub load_store_functions : List String
load_store_functions =
    "i8_store" ∷ "i16_store" ∷ "i32_store" ∷ "i64_store" ∷ "i8_load" ∷ "i16_load" ∷ "i32_load"
    ∷ "i64_load" ∷ "i32_load8_s" ∷ "i64_load8_s" ∷ "i32_load8_u" ∷ "i64_load8_u" ∷ "i32_load16_s"
    ∷ "i64_load16_s" ∷ "i32_load16_u" ∷ "i64_load16_u" ∷ "i64_load32_s" ∷ "i64_load32_u"
    ∷ "f32_load" ∷ "f64_load" ∷ "f32_store" ∷ "f64_store" ∷ "i32_store8" ∷ "i32_store16"
    ∷ "i64_store8" ∷ "i64_store16" ∷ "i64_store32" ∷ []

-- Newer wasm2c; `i18_load_unchecked` is spelled so in the source.
abbrev pub newer_names : List String
newer_names =
    "i8_store_default32" ∷ "i16_store_default32" ∷ "i32_store_default32" ∷ "i64_store_default32"
    ∷ "i8_load_default32" ∷ "i16_load_default32" ∷ "i32_load_default32" ∷ "i64_load_default32"
    ∷ "i8_store_unchecked" ∷ "i16_store_unchecked" ∷ "i32_store_unchecked" ∷ "i64_store_unchecked"
    ∷ "i8_load_unchecked" ∷ "i18_load_unchecked" ∷ "i32_load_unchecked" ∷ "i64_load_unchecked"
    ∷ "i32_load8_u_unchecked" ∷ "i32_store8_unchecked" ∷ "i32_store8_default32"
    ∷ "i32_load8_u_default32" ∷ "add_overflow" ∷ "func_types_eq" ∷ []

unfoldable pub inlined_names : String → List String
unfolding instantiate_name
inlined_names module_name =
    instantiate_name module_name ∷ (initializer_names ++ (load_store_functions ++ newer_names))

unfoldable pub set_functions_always_inline : String → Deobfuscator → Deobfuscator
unfolding inlined_names
set_functions_always_inline module_name d = set_all (inlined_names module_name) d
