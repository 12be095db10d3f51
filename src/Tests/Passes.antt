-- ===== src/Tests/Passes.antt =====
-- The passes of src/Deobfuscator.cpp on the shared module.
use Prim.Native.String.{◌++◌ as append}
use mathlib.Core.Option
use squanchy.Base.{
  Option, ℕ, if◌then◌else◌, String, same, inr, Bool, false, not, ◌||◌, none, [], ◌∷◌, ◌++◌, ◌≡◌,
  refl, map, arith, keep, has_name,
}
use squanchy.Ir.{Value, Opcode, Ty, Function, instructions}
use squanchy.Deobfuscator.{Deobfuscator, done, crash}
use squanchy.Deobfuscator.Callocs.{is_calloc, replace_callocs}
use squanchy.Deobfuscator.Callocs.Laws.{replace_callocs-done}
use squanchy.Driver.{Llvm, Options}
use squanchy.Tests.Extraction.{extract_llvm, extract_options}
use squanchy.Ir.Ids.{ids_where}
use squanchy.Deobfuscator.AlwaysInline.Names.{inlined_names, set_functions_always_inline}
use squanchy.Deobfuscator.AlwaysInline.Laws.{attribute, attribute-set_functions}
use squanchy.Deobfuscator.Inline.Reference.{inline_at}
use squanchy.Deobfuscator.Instance.{inject_initializer, replace_instance_refs}
use squanchy.Deobfuscator.Instance.Inject.{injected}
use squanchy.Deobfuscator.Instance.Refs.{
  AllPassedOn, replace_instance_refs-passes, replace_instance_refs-crash,
}
use squanchy.Deobfuscator.Table.{replace_funcref_table}
use squanchy.Deobfuscator.Table.Laws.{
  is_target, replace_funcref_table-done, replace_funcref_table-crash,
}
use squanchy.Tests.Data.{
  asm_call, helper_call, table_store, double_store, function_of, instruction, instance_call,
  bare_call, calc, storing, table_global, sample, marked, deobfuscator,
}

attribute-set_functions_example :
    attribute "i32_load" (set_functions_always_inline "squanchy" deobfuscator).ir
    ≡ Option.map
        (λ (b : Bool). b || has_name "i32_load" (inlined_names "squanchy"))
        (attribute "i32_load" sample)
attribute-set_functions_example = attribute-set_functions "squanchy" "i32_load" deobfuscator

abbrev injected_calc : Function
injected_calc =
    injected "squanchy" calc (Ty.struct "struct.w2c_env") (asm_call ∷ helper_call ∷ [])
      ((table_store ∷ instance_call ∷ []) ∷ [])

replace_instance_refs-passes_example :
    (f : Function) × (replace_instance_refs calc ≡ done f)
    × AllPassedOn (instructions calc) (instructions f)
replace_instance_refs-passes_example = replace_instance_refs-passes calc (ground arith) refl

-- A function that calls another one of the module without an argument.
abbrev calls_bare : Function
calls_bare = record calc { blocks = (helper_call ∷ bare_call ∷ []) ∷ [] }

replace_instance_refs-crash_example : replace_instance_refs calls_bare ≡ crash
replace_instance_refs-crash_example = replace_instance_refs-crash calls_bare (inr refl)

replace_funcref_table-done_example :
    (f : Function) × (replace_funcref_table sample calc ≡ done f)
    × (instructions f ≡ keep (λ i. not (is_target i)) (instructions calc))
replace_funcref_table-done_example =
    replace_funcref_table-done sample calc table_global refl (refl, (refl, (refl, (refl, tt))))
      (omega arith, (omega arith, (omega arith, (omega arith, tt))))

replace_funcref_table-crash_example : replace_funcref_table sample storing ≡ crash
replace_funcref_table-crash_example =
    replace_funcref_table-crash sample storing table_global [] double_store [] refl refl refl

-- A call of the marked helper weighs one.
abbrev weights : String → ℕ
weights k = if same k "i32_load" then 1 else 0

-- LLVM as far as the preparation uses it, with the reference inliner.
abbrev inliner : Llvm
inliner = record {
  parse_ir = λ n. none;
  can_open = λ n. false;
  link = λ m r. marked;
  inline_call = inline_at;
  arrange = λ cs. cs;
  simplify = λ f. (f, 0);
  run_pass = λ p f. f;
  simplification_pipeline = λ f. f;
  module_pipeline = λ m. m;
  extract = extract_llvm;
}

abbrev plain_options : Options
plain_options = record {
  keep_wasm_runtime = false;
  function_names = "calc" ∷ [];
  verbose = false;
  print_functions = false;
  runtime_path = "wasm_runtime.bc";
  opt_level = 3;
  module_name = "squanchy";
  extract_recursive = false;
  extract_function = false;
  replace_callocs = false;
  replace_instance_refs = false;
  inject_initializer = false;
  extract = extract_options;
}

-- A function that asks for memory and uses it.
abbrev asking : Function
asking = function_of "asking" (
    (instruction 1 Opcode.call (Value.other 3 ∷ Value.arg 0 ∷ Value.func "calloc" ∷ [])
      ∷ instruction 2 Opcode.store (Value.inst 1 ∷ Value.arg 1 ∷ [])
      ∷ [])
    ∷ [])

replace_callocs-done_example :
    (f : Function) × (replace_callocs (λ a b. none) asking ≡ done f)
    × (ids_where is_calloc (instructions f) ≡ [])
replace_callocs-done_example = replace_callocs-done (λ a b. none) asking (refl, (refl, tt)) refl
