-- ===== src/Deobfuscator/Table.antt =====
-- `replaceFUNCREF_TABLE` of src/Deobfuscator.cpp: the stores of a function that use the global
-- function table, itself or a constant address in it, are erased: those into the table, and those
-- that store its address somewhere else. A global of internal linkage, which
-- `getGlobalVariable` does not return, counts as absent from `globals`.
pub mod Erase
pub mod Laws
use squanchy.Base.{
  ℕ, String, Bool, true, false, not, Option, none, some, List, [], ◌∷◌, ◌++◌, ◌==◌, if◌then◌else◌,
  keep, any, find, same, replicate, count,
}
use squanchy.Ir.{Value, Inst, Function, Global, Module, is_store, instructions}
use squanchy.Ir.Ids.{has_id}
use squanchy.Deobfuscator.{Outcome, done, fatal, crash, ◌>>=◌}

-- One of `FuncRefTable->users()`, or a user of such a constant address.
abbrev pub refers : Value → Bool
refers (Value.global g) = same g "FUNCREF_TABLE"
refers (Value.gep g k) = same g "FUNCREF_TABLE"
refers (Value.arg _) = false
refers (Value.inst _) = false
refers (Value.func _) = false
refers Value.inline_asm = false
refers (Value.other _) = false

-- How often a store uses the table: a user is listed once for each of its operands.
abbrev pub table_uses : Inst → ℕ
table_uses i = if is_store i then count refers i.operands else 0

-- `Stores`, by the instructions' order instead of the use lists' one.
unfoldable pub collect_stores : List Inst → List ℕ
collect_stores [] = []
collect_stores (i ∷ is) = replicate (table_uses i) i.id ++ collect_stores is

abbrev pub erase_id : ℕ → List (List Inst) → List (List Inst)
erase_id c [] = []
erase_id c (b ∷ bs) = keep (λ i. not (i.id == c)) b ∷ erase_id c bs

abbrev pub present : ℕ → List (List Inst) → Bool
present c bs = any (λ b. has_id c b) bs

-- `eraseFromParent` on each: erasing an instruction that is gone is undefined.
unfoldable pub erase_each : List ℕ → List (List Inst) → Outcome (List (List Inst))
erase_each [] bs = done bs
erase_each (c ∷ cs) bs =
    let rest = erase_each cs (erase_id c bs) in if present c bs then rest else crash

unfoldable pub replace_funcref_table : Module → Function → Outcome Function
replace_funcref_table m f = elim (find (λ (g : Global). same g.name "FUNCREF_TABLE") m.globals) [
  | none ↦ done f
  | some _ ↦ do
    bs ← erase_each (collect_stores (instructions f)) f.blocks
    done (record f { blocks = bs })
]
