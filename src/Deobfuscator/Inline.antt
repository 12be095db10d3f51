-- ===== src/Deobfuscator/Inline.antt =====
-- `inlineFunctions` of src/Deobfuscator.cpp: rounds that collect the calls of always-inline
-- functions and inline them, until a round finds none. LLVM's `InlineFunction` is an argument.
pub mod Contract
pub mod Reference
pub mod Selection
pub mod Termination
use squanchy.Base.{
  ℕ, zero, suc, String, Bool, true, false, not, ◌&&◌, Option, none, some, List, [], ◌∷◌, ◌==◌,
  if◌then◌else◌, find,
}
use squanchy.Ir.Ids.{ids_where}
use squanchy.Ir.{
  Inst, Function, Module, is_inline_asm, called_function, is_declaration, instructions,
  get_function,
}

-- Whether a round collects the instruction.
unfoldable pub selected : Module → Inst → Bool
selected m i = if is_inline_asm i then false else elim (called_function i) [
  | none ↦ false
  | some k ↦ elim (get_function k m) [
    | none ↦ false
    | some g ↦ g.always_inline && not (is_declaration g)
  ]
]

-- `FuncToInline` after the inner loop, in the order of the instructions.
unfoldable pub collect : String → Module → List ℕ
unfolding selected ids_where
collect name m = elim (get_function name m) [
  | none ↦ []
  | some f ↦ ids_where (selected m) (instructions f)
]

-- The inner loop of a round over the collected calls. `inline_call` is `InlineFunction` on one call
-- of `F`; its result is not looked at.
unfoldable pub inline_all : (Module → ℕ → Module) → List ℕ → Module → Module
inline_all inline_call [] m = m
inline_all inline_call (c ∷ cs) m = inline_all inline_call cs (inline_call m c)

-- `arrange` is the order in which the set, which is sorted by address, is gone through.
module _ (inline_call : Module → ℕ → Module) (arrange : List ℕ → List ℕ) (name : String) where
  -- The `do` loop, on fuel; `none` means that the fuel ran out.
  unfoldable pub inline_functions : ℕ → Module → Option Module
  inline_functions zero m = none
  inline_functions (suc fuel) m = elim (collect name m) [
    | [] ↦ some m
    | c ∷ cs ↦ inline_functions fuel (inline_all inline_call (arrange (c ∷ cs)) m)
  ]
