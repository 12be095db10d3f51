-- ===== src/Deobfuscator/Inline/Contract.antt =====
-- What `inlineFunctions` of src/Deobfuscator.cpp relies on: LLVM's `InlineFunction`, where it
-- succeeds, puts the callee's body in the place of the call.
use text.Mathlib.Text.{starts_with}
use squanchy.Base.{
  ◌≤◌, ◌⊎◌, all, Bool, if◌then◌else◌, ℕ, ◌+◌, ◌≡◌, ◌≢◌, String, true, false, Option, none, some,
  List, [], ◌∷◌, ◌==◌, find, length,
}
use squanchy.Ir.Ids.{Distinct, member, DistinctIds}
use squanchy.Ir.{
  Inst, Function, Module, Value, last, is_call_base, called_function, is_declaration, instructions,
  get_function,
}

-- The calls of a list of instructions, each counted with the weight of its callee.
abbrev pub weigh : (String → ℕ) → List Inst → ℕ
weigh w [] = 0
weigh w (i ∷ is) = elim (called_function i) [ none ↦ 0 | some k ↦ w k ] + weigh w is

abbrev pub weight : (String → ℕ) → Function → ℕ
weight w f = weigh w (instructions f)

abbrev pub find_inst : ℕ → Function → Option Inst
find_inst c f = find (λ i. i.id == c) (instructions f)

-- Whether the instruction, if it is a call, names its callee or is inline assembly.
abbrev pub is_direct : Inst → Bool
is_direct i =
    if is_call_base i
    then elim (last i.operands) [
      | some (Value.func f) ↦ true
      | some Value.inline_asm ↦ true
      | _ ↦ false
    ]
    else true

abbrev pub AllDirect : Function → Type 0
AllDirect f = all is_direct (instructions f) ≡ true

-- A weight that does not count the calls of intrinsics.
abbrev pub Light : (String → ℕ) → Type 0
Light w = (k : String) → starts_with k "llvm." ≡ true → w k ≡ 0

-- `f'` is `f` with the call `c` of `g` replaced by the body of `g`, or by what is left of it once
-- the arguments are known: whatever calls are counted for, the call is gone and there are no more
-- than those of the body, besides calls of intrinsics. Any other call of `f` still has its callee;
-- its arguments may have become others.
pub record Inlined (c : ℕ) (f g f' : Function) : Type 0 where
  pub always_inline : f'.always_inline ≡ f.always_inline
  pub distinct : Distinct (instructions f) → Distinct (instructions f')
  pub weights : (w : String → ℕ) → Light w → weight w f' + w g.name ≤ weight w f + weight w g
  pub others :
      (d : ℕ) (i : Inst) (k : String)
      → d ≢ c
      → find_inst d f ≡ some i
      → called_function i ≡ some k
      → (j : Inst) × (find_inst d f' ≡ some j) × (called_function j ≡ some k)
  pub direct : AllDirect f'

-- The module's function `k`, after an inlining into another one: the same, or an intrinsic that has
-- been declared.
abbrev pub Untouched : Module → Module → String → Type 0
Untouched m m' k =
    (get_function k m' ≡ get_function k m)
    ⊎ ((h : Function) × (starts_with k "llvm." ≡ true)
        × (get_function k m ≡ none)
        × (get_function k m' ≡ some h)
        × (is_declaration h ≡ true))

-- `InlineFunction` on the calls of `name` to other functions that have a body, where it reports
-- success and all calls of both functions are direct, so that no new callee becomes known. It edits
-- `name` and may declare intrinsics.
pub record Inlines (name : String) (succeeds : Module → ℕ → Bool)
    (inline_call : Module → ℕ → Module) : Type 0 where
  pub replaces :
      (m : Module) (c : ℕ) (f g : Function) (i : Inst)
      → succeeds m c ≡ true
      → get_function name m ≡ some f
      → find_inst c f ≡ some i
      → called_function i ≡ some g.name
      → g.name ≢ name
      → get_function g.name m ≡ some g
      → is_declaration g ≡ false
      → AllDirect f
      → AllDirect g
      → (f' : Function) × (get_function name (inline_call m c) ≡ some f') × Inlined c f g f'
  pub elsewhere : (m : Module) (c : ℕ) (k : String) → k ≢ name → Untouched m (inline_call m c) k

-- An order of a set's elements: the same ones, each once.
pub record Arranges (arrange : List ℕ → List ℕ) : Type 0 where
  pub within : (c : ℕ) (cs : List ℕ) → member c (arrange cs) ≡ true → member c cs ≡ true
  pub distinct : (cs : List ℕ) → DistinctIds cs → DistinctIds (arrange cs)
  pub size : (cs : List ℕ) → length (arrange cs) ≡ length cs
