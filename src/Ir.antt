-- ===== src/Ir.antt =====
-- The part of an LLVM module that the tool reads and edits. The classes are LLVM's; the records
-- hold what src/Deobfuscator.cpp and src/LLVMExtract.cpp ask of them and nothing else. A pointer
-- to a function or global is its name, a pointer to an instruction its `id`.
pub mod Functions
pub mod Ids
use squanchy.Base.{
  ℕ, zero, suc, ◌+◌, String, Bool, true, false, ◌&&◌, ◌||◌, Option, none, some, List, [], ◌∷◌, map,
  flatten, ◌==◌, if◌then◌else◌, length, find, any, same,
}

-- An operand. `gep g k` is the constant expression number `k` that addresses into global `g`.
pub data Value : Type 0 where
  arg : ℕ → Value
  inst : ℕ → Value
  func : String → Value
  global : String → Value
  gep : String → ℕ → Value
  inline_asm : Value
  other : ℕ → Value

pub data Ty : Type 0 where
  struct : String → Ty
  bits : ℕ → Ty

pub data Opcode : Type 0 where
  call store mul : Opcode
  invoke callbr : Opcode
  alloca : Ty → Opcode
  rest : ℕ → Opcode

-- A call's operands are its arguments and then the callee, as LLVM lays them out.
pub record Inst : Type 0 where
  pub id : ℕ
  pub opcode : Opcode
  pub operands : List Value
  pub always_inline : Bool

pub record Function : Type 0 where
  pub name : String
  pub arg_size : ℕ
  pub always_inline : Bool
  pub no_inline : Bool
  pub optimize_none : Bool
  pub blocks : List (List Inst)

pub record Global : Type 0 where
  pub name : String
  pub init : Option ℕ

pub record Module : Type 0 where
  pub functions : List Function
  pub globals : List Global
  pub aliases : List String
  pub structs : List String
  pub triple : String
  pub layout : String

abbrev pub is_call : Inst → Bool
is_call i = elim i.opcode [ call ↦ true | _ ↦ false ]

abbrev pub is_store : Inst → Bool
is_store i = elim i.opcode [ store ↦ true | _ ↦ false ]

abbrev pub last : List Value → Option Value
last [] = none
last (v ∷ []) = some v
last (v ∷ w ∷ vs) = last (w ∷ vs)

-- `CallBase::isInlineAsm`
abbrev pub is_inline_asm : Inst → Bool
is_inline_asm i = is_call i && elim (last i.operands) [ some inline_asm ↦ true | _ ↦ false ]

-- `getCalledFunction` of a `CallInst`: the callee's name, if the call is direct.
abbrev pub called_function : Inst → Option String
called_function i =
    if is_call i then elim (last i.operands) [ some (func f) ↦ some f | _ ↦ none ] else none

-- `isa<CallBase>`: `invoke` and `callbr` call as well; their callee is the last operand, too.
abbrev pub is_call_base : Inst → Bool
is_call_base i = elim i.opcode [ call ↦ true | invoke ↦ true | callbr ↦ true | _ ↦ false ]

-- The same of any call.
abbrev pub called_by_base : Inst → Option String
called_by_base i =
    if is_call_base i then elim (last i.operands) [ some (func f) ↦ some f | _ ↦ none ] else none

-- `Function::isDeclaration`
abbrev pub is_declaration : Function → Bool
is_declaration f = elim f.blocks [ [] ↦ true | _ ∷ _ ↦ false ]

abbrev pub names_function : String → Value → Bool
names_function n (func m) = same m n
names_function n (arg _) = false
names_function n (inst _) = false
names_function n (global _) = false
names_function n (gep _ _) = false
names_function n inline_asm = false
names_function n (other _) = false

-- One of `F->users()`.
abbrev pub uses_function : String → Inst → Bool
uses_function n i = any (names_function n) i.operands

-- Every instruction of a function, in order: `inst_begin(F)` to `inst_end(F)`.
abbrev pub instructions : Function → List Inst
instructions f = flatten f.blocks

-- `M->getFunction`
unfoldable pub get_function : String → Module → Option Function
get_function n m = find (λ f. same f.name n) m.functions

-- The body or the attributes of the functions named `n` are replaced by `edit`.
abbrev pub edit_named : String → (Function → Function) → List Function → List Function
edit_named n edit [] = []
edit_named n edit (f ∷ fs) = (if same f.name n then edit f else f) ∷ edit_named n edit fs

unfoldable pub edit_function : String → (Function → Function) → Module → Module
edit_function n edit m = record m { functions = edit_named n edit m.functions }

-- `edit` is applied to every instruction of the module.
abbrev pub edit_insts : (Inst → Inst) → Function → Function
edit_insts edit f = record f { blocks = map (map edit) f.blocks }

-- `edit` is applied to every function of the module.
unfoldable pub edit_functions : (Function → Function) → Module → Module
edit_functions edit m = record m { functions = map edit m.functions }
