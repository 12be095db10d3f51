-- ===== src/Deobfuscator/Callocs.antt =====
-- `replaceCallocs` of src/Deobfuscator.cpp: each call of calloc becomes memory of the frame, as many
-- bytes as the product of its arguments.
pub mod Splice
pub mod Laws
use squanchy.Base.{
  ℕ, ◌+◌, String, Bool, true, false, Option, none, some, List, [], ◌∷◌, ◌++◌, ◌==◌, if◌then◌else◌,
  map, find, same,
}
use squanchy.Ir.{Value, Ty, bits, Opcode, Inst, Function, called_function, instructions, edit_insts}
use squanchy.Ir.Ids.{ids_where}
use squanchy.Deobfuscator.{Outcome, done, crash, ◌>>=◌}
use squanchy.Deobfuscator.Instance.{fresh}

abbrev pub is_calloc : Inst → Bool
is_calloc i = elim (called_function i) [ none ↦ false | some f ↦ same f "calloc" ]

-- One operand under `CI->replaceAllUsesWith(Alloca)`.
abbrev pub replace_use : (from to : ℕ) → Value → Value
replace_use from to (Value.arg k) = Value.arg k
replace_use from to (Value.inst k) = if k == from then Value.inst to else Value.inst k
replace_use from to (Value.func f) = Value.func f
replace_use from to (Value.global g) = Value.global g
replace_use from to (Value.gep g k) = Value.gep g k
replace_use from to Value.inline_asm = Value.inline_asm
replace_use from to (Value.other k) = Value.other k

abbrev pub replace_uses : (from to : ℕ) → Inst → Inst
replace_uses from to i = record i { operands = map (replace_use from to) i.operands }

abbrev pub new_inst : ℕ → Opcode → List Value → Inst
new_inst k op values = record { id = k; opcode = op; operands = values; always_inline = false }

-- The instructions that `CreateMul` and `CreateAlloca` make. The builder gives the product of two
-- constants without an instruction.
abbrev pub made : (folded : Option Value) → ℕ → (size count : Value) → List Inst
made (some product) k size count = new_inst (k + 1) (Opcode.alloca (bits 8)) (product ∷ []) ∷ []
made none k size count =
    new_inst k Opcode.mul (size ∷ count ∷ [])
    ∷ new_inst (k + 1) (Opcode.alloca (bits 8)) (Value.inst k ∷ [])
    ∷ []

-- The instructions stand in the place of the one with the address.
abbrev pub splice : ℕ → List Inst → List Inst → List Inst
splice c new [] = []
splice c new (i ∷ is) = if i.id == c then new ++ splice c new is else i ∷ splice c new is

-- The body of the loop for one call: without two arguments the reads of them are undefined.
unfoldable pub replace_calloc : (Value → Value → Option Value) → Function → Inst → Outcome Function
replace_calloc fold f site = elim site.operands [
  | size ∷ count ∷ callee ∷ others ↦ done (
      edit_insts (replace_uses site.id (fresh f + 1)) (record f {
        blocks = map (splice site.id (made (fold size count) (fresh f) size count)) f.blocks;
      }))
  | _ ↦ crash
]

-- The calls one after the other, each as the ones before have left it.
unfoldable pub replace_each : (Value → Value → Option Value) → List ℕ → Function → Outcome Function
replace_each fold [] f = done f
replace_each fold (c ∷ cs) f = elim (find (λ (i : Inst). i.id == c) (instructions f)) [
  | none ↦ crash
  | some site ↦ replace_calloc fold f site >>= replace_each fold cs
]

-- The iterator moves on before a call is replaced, so it meets the calls that are there at first.
unfoldable pub replace_callocs : (Value → Value → Option Value) → Function → Outcome Function
replace_callocs fold f = replace_each fold (ids_where is_calloc (instructions f)) f
