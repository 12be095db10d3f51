-- ===== src/Deobfuscator/Instance.antt =====
-- `injectInitializer` and `replaceInstanceRefs` of src/Deobfuscator.cpp: the instance argument of
-- a wasm2c function is replaced by a local, initialised instance, and back.
pub mod Inject
pub mod Refs
use Prim.Native.String.{◌++◌ as append}
use text.Mathlib.Text.{starts_with}
use squanchy.Base.{
  ℕ, zero, suc, ◌+◌, ◌*◌, String, Bool, true, false, not, ◌&&◌, Option, none, some, List, [], ◌∷◌,
  ◌++◌, ◌==◌, if◌then◌else◌, map, find, set, has_name, length, same, u32, u64, ◌^◌, ltb, leb,
  flatten,
}
use squanchy.Ir.{
  Value, Ty, Opcode, Inst, Function, Global, Module, is_call, called_function, instructions,
  get_function, edit_insts,
}
use squanchy.Deobfuscator.{Outcome, done, fatal, crash, ◌>>=◌}

abbrev pub max_id : List Inst → ℕ
max_id [] = 0
max_id (i ∷ is) = let rest = max_id is in if ltb rest i.id then i.id else rest

-- An address that no instruction of the function has.
unfoldable pub fresh : Function → ℕ
fresh f = suc (max_id (instructions f))

abbrev alloca_inst : ℕ → Ty → Inst
alloca_inst i ty = record {
  id = i;
  opcode = Opcode.alloca ty;
  operands = [];
  always_inline = false;
}

abbrev call_instantiate : ℕ → ℕ → ℕ → Inst
call_instantiate i instance_ env = record {
  id = i;
  opcode = Opcode.call;
  operands = Value.inst instance_ ∷ Value.inst env ∷ Value.func "wasm2c_squanchy_instantiate" ∷ [];
  always_inline = false;
}

-- One operand under `Arg0->replaceAllUsesWith`.
abbrev pub replace_value : ℕ → Value → Value
replace_value to (Value.arg k) = if k == 0 then Value.inst to else Value.arg k
replace_value to (Value.inst k) = Value.inst k
replace_value to (Value.func f) = Value.func f
replace_value to (Value.global g) = Value.global g
replace_value to (Value.gep g k) = Value.gep g k
replace_value to Value.inline_asm = Value.inline_asm
replace_value to (Value.other k) = Value.other k

unfoldable pub replace_arg : ℕ → Inst → Inst
replace_arg to i = record i { operands = map (replace_value to) i.operands }

-- `getIntNTy` of as many bytes: the number of bits is narrowed to 32 bits, and there are types of 1
-- to 2 ^ 23 bits. `getZExtValue` takes a constant of at most 64 bits.
unfoldable pub int_type : ℕ → Outcome Ty
int_type n =
    let width = u32 (u64 (n * 8)) in
    if ltb n (2 ^ 64) && (ltb 0 width && leb width 8388608) then done (Ty.bits width) else crash

-- The type of `w2c_env`: the named struct, or an integer as wide as `w2c_env_size` says.
unfoldable pub env_type : Module → Outcome Ty
env_type m =
    if has_name "struct.w2c_env" m.structs
    then done (Ty.struct "struct.w2c_env")
    else elim (find (λ (g : Global). same g.name "w2c_env_size") m.globals) [
      | none ↦ fatal "Could not find w2c_env_size"
      | some g ↦ elim g.init [ none ↦ crash | some n ↦ int_type n ]
    ]

-- The three new instructions stand in front of the entry block: the second alloca is put before
-- the first one, and the call before what was the first instruction.
abbrev pub new_insts : ℕ → Ty → Ty → List Inst
new_insts k instance_ty env_ty =
    alloca_inst (k + 1) env_ty ∷ alloca_inst k instance_ty ∷ call_instantiate (k + 2) k (k + 1) ∷ []

-- The pass behind its reads of the entry block and of the argument.
unfoldable pub inject_into :
    String → Module → Function → List Inst → List (List Inst) → Outcome Function
unfolding fresh replace_arg env_type
inject_into module_name m f entry others =
    let struct_name = append "struct.w2c_" module_name in
    if not (has_name struct_name m.structs) then fatal "Could not find the struct type" else (do
      ty ← env_type m
      elim (get_function "wasm2c_squanchy_instantiate" m) [
        | none ↦ crash
        | some _ ↦
            let new = new_insts (fresh f) (Ty.struct struct_name) ty in
            done
              (edit_insts (replace_arg (fresh f)) (record f { blocks = (new ++ entry) ∷ others }))
      ])

-- `crash` stands for the reads of an entry block, a first instruction or an argument that are not
-- there, and for a call of the null function.
unfoldable pub inject_initializer : String → Module → Function → Outcome Function
unfolding inject_into
inject_initializer module_name m f = elim f.blocks [
  | [] ↦ crash
  | [] ∷ bs ↦ crash
  | (i ∷ is) ∷ bs ↦ if f.arg_size == 0 then crash else inject_into module_name m f (i ∷ is) bs
]

-- One instruction in `replaceInstanceRefs`. The number of operands counts the callee, so a call
-- without arguments gets to `setArgOperand`, for which there is no argument 0.
unfoldable pub replace_ref : Inst → Outcome Inst
replace_ref i =
    if not (is_call i)
    then done i
    else if length i.operands == 0
    then done i
    else elim (called_function i) [
      | none ↦ done i
      | some g ↦
          if not (starts_with g "w2c_squanchy_")
          then done i
          else if length i.operands == 1
          then crash
          else done (record i { operands = set i.operands 0 (Value.arg 0) })
    ]

-- The loop over the instructions.
unfoldable pub replace_refs : List Inst → Outcome (List Inst)
replace_refs [] = done []
replace_refs (i ∷ is) = do j ← replace_ref i; js ← replace_refs is; done (j ∷ js)

unfoldable pub replace_refs_of : List (List Inst) → Outcome (List (List Inst))
replace_refs_of [] = done []
replace_refs_of (b ∷ bs) = do c ← replace_refs b; cs ← replace_refs_of bs; done (c ∷ cs)

-- `getArg(0)` of a function without arguments is read at once.
unfoldable pub replace_instance_refs : Function → Outcome Function
replace_instance_refs f =
    if f.arg_size == 0
    then crash
    else (do bs ← replace_refs_of f.blocks; done (record f { blocks = bs }))
