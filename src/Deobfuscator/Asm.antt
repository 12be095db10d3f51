-- ===== src/Deobfuscator/Asm.antt =====
-- `removeCallASMSideEffects` of src/Deobfuscator.cpp: every call of inline assembly is erased,
-- whether the assembly is marked with side effects or not.
use squanchy.Base.{
  ◌+◌, ℕ, ◌||◌, ◌==◌, if◌then◌else◌, inl, inr, Bool-cases, Option-cases, ◌≡◌, refl, String, Bool,
  false, not, none, some, List, [], ◌∷◌, ◌++◌, arith, length, keep, any, count, flatten,
  any-keep-not,
}
use squanchy.Deobfuscator.{Outcome, done, crash}
use squanchy.Ir.{
  Value, Inst, Function, Module, is_inline_asm, is_declaration, instructions, get_function,
  edit_function,
}
use squanchy.Deobfuscator.Count.{function_count, function_count-length}

-- The loop over the instructions. The iterator moves on before an instruction is erased.
erase_asm : List (List Inst) → List (List Inst)
erase_asm [] = []
erase_asm (b ∷ bs) = keep (λ i. not (is_inline_asm i)) b ∷ erase_asm bs

unfoldable pub without_asm : Function → Function
unfolding erase_asm
without_asm f = record f { blocks = erase_asm f.blocks }

abbrev pub names_inst : ℕ → Value → Bool
names_inst k (Value.inst j) = j == k
names_inst k (Value.arg _) = false
names_inst k (Value.func _) = false
names_inst k (Value.global _) = false
names_inst k (Value.gep _ _) = false
names_inst k Value.inline_asm = false
names_inst k (Value.other _) = false

-- Whether a call is erased while an instruction that is still there uses its result. `kept` are the
-- instructions that the loop has passed and left.
unfoldable pub erases_used : (kept : List Inst) → List Inst → Bool
erases_used kept [] = false
erases_used kept (i ∷ is) =
    let erased = erases_used kept is in
    let passed = erases_used (kept ++ i ∷ []) is in
    if is_inline_asm i
    then any (λ (j : Inst). any (names_inst i.id) j.operands) (kept ++ i ∷ is) || erased
    else passed

-- The overload that looks the function up by its name. To erase an instruction that has uses is
-- undefined.
unfoldable pub remove_asm_named : String → Module → Outcome Module
unfolding without_asm
remove_asm_named n m = elim (get_function n m) [
  | none ↦ done m
  | some f ↦ if erases_used [] (instructions f) then crash else done (edit_function n without_asm m)
]

-- What it leaves where it returns.
unfoldable pub without_asm_named : String → Module → Module
unfolding without_asm
without_asm_named n m = elim (get_function n m) [
  | none ↦ m
  | some f ↦ edit_function n without_asm m
]

keep-append : (p : Inst → Bool) (xs ys : List Inst) → keep p (xs ++ ys) ≡ keep p xs ++ keep p ys
keep-append p [] ys = refl
keep-append p (x ∷ xs) ys = ground (arith, keep-append p xs ys)

flatten-erase_asm :
    (bs : List (List Inst))
    → flatten (erase_asm bs) ≡ keep (λ i. not (is_inline_asm i)) (flatten bs)
unfolding erase_asm
flatten-erase_asm [] = refl
flatten-erase_asm (b ∷ bs) =
    rw (flatten-erase_asm bs, keep-append (λ i. not (is_inline_asm i)) b (flatten bs))

-- What is left of a function is its other instructions, in their order.
pub instructions-without_asm :
    (f : Function)
    → instructions (without_asm f) ≡ keep (λ i. not (is_inline_asm i)) (instructions f)
unfolding without_asm
instructions-without_asm f = flatten-erase_asm f.blocks

-- After the pass the function holds no call of inline assembly.
pub without_asm-clean : (f : Function) → any is_inline_asm (instructions (without_asm f)) ≡ false
without_asm-clean f = rw (instructions-without_asm f) (any-keep-not is_inline_asm (instructions f))

length-keep-not :
    (xs : List Inst)
    → length (keep (λ i. not (is_inline_asm i)) xs) + count is_inline_asm xs ≡ length xs
length-keep-not [] = refl
length-keep-not (x ∷ xs) = ground (arith, length-keep-not xs)

-- The pass lowers a function's instruction count by the number of its inline assembly calls.
pub function_count-without_asm :
    (f : Function)
    → function_count (without_asm f) + count is_inline_asm (instructions f) ≡ function_count f
function_count-without_asm f =
    rw (function_count-length f, function_count-length (without_asm f), instructions-without_asm f)
      (length-keep-not (instructions f))

erase_asm-is_declaration :
    (f : Function) (bs : List (List Inst))
    → is_declaration (record f { blocks = erase_asm bs })
      ≡ is_declaration (record f { blocks = bs })
unfolding erase_asm
erase_asm-is_declaration f [] = refl
erase_asm-is_declaration f (b ∷ bs) = refl

-- A body stays a body.
pub without_asm-is_declaration : (f : Function) → is_declaration (without_asm f) ≡ is_declaration f
unfolding without_asm
without_asm-is_declaration f = erase_asm-is_declaration f f.blocks

abbrev pub Removable : String → Module → Type 0
Removable n m = (f : Function) → get_function n m ≡ some f → erases_used [] (instructions f) ≡ false

-- Where no result of an erased call is used, the pass returns.
pub remove_asm_named-done :
    (n : String) (m : Module) → Removable n m → remove_asm_named n m ≡ done (without_asm_named n m)
unfolding remove_asm_named without_asm_named
remove_asm_named-done n m unused = elim (Option-cases (get_function n m)) [
  | inl e ↦ ground (arith, e)
  | inr (f, e) ↦ ground (arith, e, unused f e)
]

pub remove_asm_named-left :
    (n : String) (m m' : Module) → remove_asm_named n m ≡ done m' → without_asm_named n m ≡ m'
unfolding remove_asm_named without_asm_named
remove_asm_named-left n m m' h = elim (Option-cases (get_function n m)) [
  | inl e ↦ ground (arith, e, h)
  | inr (f, e) ↦ elim (Bool-cases (erases_used [] (instructions f))) [
    | inl used ↦ absurd (ground (arith, e, used, h))
    | inr fine ↦ ground (arith, e, fine, h)
  ]
]
