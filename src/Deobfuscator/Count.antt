-- ===== src/Deobfuscator/Count.antt =====
-- `getInstructionCount` of src/Deobfuscator.cpp, for a function and for a module. The counts are
-- C's `int`; a module of 2 ^ 31 instructions, where that overflows, is left out.
use squanchy.Base.{
  ℕ, ◌+◌, ◌≡◌, refl, List, [], ◌∷◌, arith, if◌then◌else◌, length, length-append, flatten,
}
use squanchy.Ir.{Inst, Function, Module, is_declaration, instructions}

blocks_size : List (List Inst) → ℕ
blocks_size [] = 0
blocks_size (b ∷ bs) = length b + blocks_size bs

unfoldable pub function_count : Function → ℕ
unfolding blocks_size
function_count f = blocks_size f.blocks

functions_size : List Function → ℕ
unfolding function_count
functions_size [] = 0
functions_size (f ∷ fs) =
    if is_declaration f then functions_size fs else function_count f + functions_size fs

unfoldable pub module_count : Module → ℕ
unfolding functions_size
module_count m = functions_size m.functions

blocks_size-length : (bs : List (List Inst)) → blocks_size bs ≡ length (flatten bs)
unfolding blocks_size
blocks_size-length [] = refl
blocks_size-length (b ∷ bs) = omega (arith, length-append b (flatten bs), blocks_size-length bs)

-- The count of a function is the number of instructions that its instruction iterator visits.
pub function_count-length : (f : Function) → function_count f ≡ length (instructions f)
unfolding function_count
function_count-length f = blocks_size-length f.blocks
