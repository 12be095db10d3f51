-- ===== src/Tests/Drivers.antt =====
-- `deobfuscate` and `main` on the shared module, with passes of LLVM that change nothing but the
-- call that is inlined.
use squanchy.Base.{
  ℕ, String, true, false, not, some, List, [], ◌∷◌, ◌≡◌, ◌↔◌, refl, keep, ◌==◌, map,
}
use squanchy.Ir.{Value, Opcode, Inst, Function, Module, get_function, edit_function, edit_functions}
use squanchy.Ir.Ids.{ids_where}
use squanchy.Deobfuscator.{Deobfuscator, done}
use squanchy.Deobfuscator.Asm.{without_asm, erases_used, remove_asm_named}
use squanchy.Deobfuscator.AlwaysInline.Names.{
  inlined_names, instantiate_name, set_functions_always_inline,
}
use squanchy.Deobfuscator.AlwaysInline.{set_pointer, set_all, set_function_always_inline}
use squanchy.Deobfuscator.Inline.{selected, collect, inline_all, inline_functions}
use squanchy.Driver.{Llvm, Options, override_target, construct}
use squanchy.Driver.Prepare.{prepare, link_runtime, initialize, inline_and_clean}
use squanchy.Driver.Run.{nothing, Result, deobfuscate_all, after_loop, deobfuscate}
use squanchy.Driver.Run.Laws.{run_main-exit}
use squanchy.Driver.Main.{parse_llvm_options, run_main}
use squanchy.Tests.Data.{function_of, instruction, asm_call, load_helper, sample, deobfuscator}
use squanchy.Tests.Extraction.{extract_llvm, extract_options}

abbrev drop_call : ℕ → Function → Function
drop_call c f = record f { blocks = map (keep (λ (i : Inst). not (i.id == c))) f.blocks }

abbrev llvm : Llvm
llvm = record {
  parse_ir = λ n. some sample;
  can_open = λ n. false;
  link = λ m r. m;
  inline_call = λ n m c. edit_function n (drop_call c) m;
  arrange = λ cs. cs;
  simplify = λ f. (f, 0);
  run_pass = λ p f. f;
  simplification_pipeline = λ f. f;
  module_pipeline = λ m. m;
  extract = extract_llvm;
}

abbrev options_for : List String → Options
options_for names = record {
  keep_wasm_runtime = false;
  function_names = names;
  verbose = false;
  print_functions = false;
  runtime_path = "wasm_runtime.bc";
  opt_level = 3;
  module_name = "squanchy";
  extract_recursive = false;
  extract_function = false;
  replace_callocs = false;
  replace_instance_refs = false;
  inject_initializer = false;
  extract = extract_options;
}

abbrev unopened : Result
unopened = record { deobfuscator = deobfuscator; output = nothing; success = true }

abbrev exit_code : ℕ
exit_code = 1

run_main-exit_example :
    (d : Deobfuscator) × (r : Result) × (construct llvm
        (options_for ("main" ∷ []))
        "calc.ll"
        "out.ll"
      ≡ done d)
    × (deobfuscate llvm (options_for ("main" ∷ [])) 3 d ≡ done r)
    × (nothing ≡ r.output)
    × ((r.success ≡ true) ↔ (exit_code ≡ 0))
    × ((r.success ≡ false) ↔ (exit_code ≡ 1))
    × (exit_code ≡ 1 → nothing ≡ nothing)
unfolding run_main parse_llvm_options construct override_target deobfuscate deobfuscate_all
    get_function after_loop
run_main-exit_example =
    run_main-exit llvm (λ argv. (options_for ("main" ∷ []), "calc.ll", "out.ll")) 3 [] nothing
      exit_code refl

-- After the linking: `calc` calls a helper that is marked both ways.
abbrev linked : Module
linked = record sample {
  functions =
      function_of "calc"
        ((asm_call ∷ instruction 2 Opcode.call (Value.func "helper" ∷ []) ∷ []) ∷ [])
      ∷ record load_helper { name = "helper"; always_inline = true; no_inline = true }
      ∷ [];
}

abbrev linking : Llvm
linking = record llvm { link = λ m r. linked }

abbrev finished : Module
finished = record sample {
  functions =
      record (function_of "calc" ([] ∷ [])) { no_inline = true }
      ∷ record load_helper { name = "helper" }
      ∷ [];
}

abbrev prepared : Deobfuscator
prepared = record (link_runtime linking "calc" deobfuscator) { ir = finished }

-- The preparation of `calc` in that module.
prepared_calc : prepare linking (options_for []) 3 "calc" deobfuscator ≡ done prepared
unfolding prepare inline_and_clean initialize inline_functions inline_all collect link_runtime
    set_functions_always_inline set_all set_function_always_inline set_pointer inlined_names
    instantiate_name get_function edit_function edit_functions selected ids_where remove_asm_named
    without_asm erases_used
prepared_calc = refl
