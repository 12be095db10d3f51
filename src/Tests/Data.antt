-- ===== src/Tests/Data.antt =====
-- The module that the tests share.
use squanchy.Base.{ℕ, String, true, false, none, List, [], ◌∷◌}
use squanchy.Ir.{Value, Opcode, Inst, Function, Global, Module}
use squanchy.Deobfuscator.{Deobfuscator, Outcome, done, fatal, crash, out_of_fuel}

abbrev pub instruction : ℕ → Opcode → List Value → Inst
instruction i op vs = record { id = i; opcode = op; operands = vs; always_inline = false }

abbrev pub asm_call : Inst
asm_call = instruction 1 Opcode.call (Value.inline_asm ∷ [])

abbrev pub helper_call : Inst
helper_call = instruction 2 Opcode.call (Value.arg 0 ∷ Value.func "i32_load" ∷ [])

abbrev pub table_store : Inst
table_store = instruction 3 Opcode.store (Value.other 7 ∷ Value.global "FUNCREF_TABLE" ∷ [])

abbrev pub double_store : Inst
double_store =
    instruction 4 Opcode.store (Value.gep "FUNCREF_TABLE" 0 ∷ Value.global "FUNCREF_TABLE" ∷ [])

abbrev pub instance_call : Inst
instance_call =
    instruction 5 Opcode.call (Value.inst 9 ∷ Value.other 1 ∷ Value.func "w2c_squanchy_f1" ∷ [])

abbrev pub bare_call : Inst
bare_call = instruction 6 Opcode.call (Value.func "w2c_squanchy_f2" ∷ [])

abbrev pub function_of : String → List (List Inst) → Function
function_of n bs = record {
  name = n;
  arg_size = 2;
  always_inline = false;
  no_inline = false;
  optimize_none = true;
  blocks = bs;
}

abbrev pub calc : Function
calc = function_of "calc" ((asm_call ∷ helper_call ∷ []) ∷ (table_store ∷ instance_call ∷ []) ∷ [])

abbrev pub storing : Function
storing = function_of "storing" ((double_store ∷ []) ∷ [])

abbrev pub load_helper : Function
load_helper = function_of "i32_load" ((instruction 1 (Opcode.rest 0) [] ∷ []) ∷ [])

abbrev pub initializer : Function
initializer =
    function_of "wasm2c_squanchy_instantiate" ((instruction 1 (Opcode.rest 0) [] ∷ []) ∷ [])

abbrev pub table_global : Global
table_global = record { name = "FUNCREF_TABLE"; init = none }

abbrev pub sample : Module
sample = record {
  functions = calc ∷ load_helper ∷ initializer ∷ [];
  globals = table_global ∷ [];
  aliases = [];
  structs = "struct.w2c_squanchy" ∷ "struct.w2c_env" ∷ [];
  triple = "wasm32";
  layout = "e";
}

abbrev pub marked : Module
marked = record sample { functions = calc ∷ record load_helper { always_inline = true } ∷ [] }

abbrev pub bare : Module
bare = record sample { functions = calc ∷ [] }

abbrev pub deobfuscator : Deobfuscator
deobfuscator = record {
  ir = sample;
  runtime = bare;
  input_file = "calc.ll";
  output_file = "out.ll";
  instruction_count_before = 6;
  ai_function_names = [];
}

abbrev pub value {ℓ} : {A : Type ℓ} → A → Outcome A → A
value other (done a) = a
value other (fatal e) = other
value other crash = other
value other out_of_fuel = other
