-- ===== src/Extract.antt =====
-- `LLVMExtract` of src/LLVMExtract.cpp: which global values are kept, and the passes that drop the
-- others. `none` stands for its early `return 1`. A module is fully read, so nothing is to be
-- materialised.
pub mod Recursive
pub mod Select
use squanchy.Base.{
  ℕ, String, Bool, true, false, not, ◌&&◌, ◌||◌, Option, none, some, List, [], ◌∷◌, ◌++◌,
  if◌then◌else◌, any, same,
}
use squanchy.Ir.{Inst, Function, Module, called_by_base, is_declaration, instructions, get_function}

-- A pointer to a `GlobalValue`.
pub data Gv : Type 0 where
  alias variable function : String → Gv

abbrev pub same_gv : Gv → Gv → Bool
same_gv (alias a) (alias b) = same a b
same_gv (variable a) (variable b) = same a b
same_gv (function a) (function b) = same a b
same_gv _ _ = false

abbrev pub has_gv : Gv → List Gv → Bool
has_gv g gs = any (λ h. same_gv h g) gs

-- `SetVector::insert`
unfoldable pub insert_gv : Gv → List Gv → List Gv
insert_gv g gs = if has_gv g gs then gs else gs ++ g ∷ []

-- The names whose function has a body.
abbrev pub is_defined : Module → String → Bool
is_defined m n = elim (get_function n m) [ none ↦ false | some f ↦ not (is_declaration f) ]

callees_from : Module → List Inst → List String
callees_from m [] = []
callees_from m (i ∷ is) = elim (called_by_base i) [
  | none ↦ callees_from m is
  | some n ↦ if is_defined m n then n ∷ callees_from m is else callees_from m is
]

-- The functions with a body that `n` calls directly, in the order of the calls.
unfoldable pub callees : Module → String → List String
unfolding callees_from
callees m n = elim (get_function n m) [ none ↦ [] | some f ↦ callees_from m (instructions f) ]
