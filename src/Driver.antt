-- ===== src/Driver.antt =====
-- The parts of `Deobfuscator` in src/Deobfuscator.cpp that put the passes together: the options, the
-- constructor, and `deobfuscateFunction` up to the optimisation in the child `Prepare`, the whole of
-- it in `Passes`, `deobfuscate` in `Run`, the program in `Main`.
pub mod Prepare
pub mod Passes
pub mod Run
pub mod Main
use squanchy.Base.{ℕ, String, Bool, true, false, Option, none, some, List, [], if◌then◌else◌, same}
use squanchy.Ir.{Function, Module, get_function, edit_function}
use squanchy.Deobfuscator.{Deobfuscator, Outcome, done, fatal, crash, ◌>>=◌}
use squanchy.Deobfuscator.Count.{module_count}
use squanchy.Pipeline.{Pass}
use squanchy.Extract.Select.{ExtractLlvm, ExtractOptions}

-- The `cl::opt`s of src/Deobfuscator.cpp, and those of src/LLVMExtract.cpp as `extract`.
-- `keep_wasm_runtime` is read nowhere.
pub record Options : Type 0 where
  pub keep_wasm_runtime : Bool
  pub function_names : List String
  pub verbose : Bool
  pub print_functions : Bool
  pub runtime_path : String
  -- An `int`, as its 32 bits.
  pub opt_level : ℕ
  pub module_name : String
  pub extract_recursive : Bool
  pub extract_function : Bool
  pub replace_callocs : Bool
  pub replace_instance_refs : Bool
  pub inject_initializer : Bool
  pub extract : ExtractOptions

-- What LLVM, SiMBA++ and the file system do. `link` is `linkInModule` into the first module, with
-- `OverrideFromSrc`; `simplification_pipeline` and `module_pipeline` run LLVM's own O3 pipelines.
pub record Llvm : Type 0 where
  pub parse_ir : String → Option Module
  pub can_open : String → Bool
  pub link : Module → Module → Module
  pub inline_call : String → Module → ℕ → Module
  pub arrange : List ℕ → List ℕ
  pub simplify : Function → Function × ℕ
  pub run_pass : Pass → Function → Function
  pub simplification_pipeline : Function → Function
  pub module_pipeline : Module → Module
  pub extract : ExtractLlvm

unfoldable pub override_target : Module → Module
override_target m = record m { triple = "x86_64-linux-gnu"; layout = "" }

abbrev pub parse : Llvm → String → Option Module
parse llvm filename = llvm.parse_ir filename

-- The constructor.
unfoldable pub construct : Llvm → Options → String → String → Outcome Deobfuscator
construct llvm opts input output = elim (parse llvm input) [
  | none ↦ fatal "[!] Could not parse the input file!"
  | some m ↦
      if same opts.runtime_path ""
      then fatal "[!] Runtime path is empty!"
      else elim (parse llvm opts.runtime_path) [
        | none ↦ fatal "[!] Could not parse the runtime file!"
        | some r ↦ done (record {
          ir = override_target m;
          runtime = override_target r;
          input_file = input;
          output_file = output;
          instruction_count_before = module_count m;
          ai_function_names = [];
        })
      ]
]

-- A pass over the function that the pointer `F` stands for, here by its name.
unfoldable pub on_function : String → (Function → Outcome Function) → Module → Outcome Module
on_function n pass m = elim (get_function n m) [
  | none ↦ crash
  | some f ↦ do f' ← pass f; done (edit_function n (λ g. f') m)
]
