-- ===== src/Deobfuscator/Inline/Selection.antt =====
-- Which calls a round of `inlineFunctions` of src/Deobfuscator.cpp collects.
use squanchy.Base.{◌≡◌, String, true, false, none, some, inl, inr, arith, Bool-cases, Option-cases}
use squanchy.Ir.{
  Inst, Function, Module, is_inline_asm, called_function, is_declaration, get_function,
}
use squanchy.Deobfuscator.Inline.{selected}

-- Why an instruction is collected: it calls a marked function with a body.
pub record Selected (m : Module) (i : Inst) : Type 0 where
  pub callee : String
  pub target : Function
  pub direct : called_function i ≡ some callee
  pub found : get_function callee m ≡ some target
  pub marked : target.always_inline ≡ true
  pub defined : is_declaration target ≡ false

asm-indirect : (i : Inst) → is_inline_asm i ≡ true → called_function i ≡ none
asm-indirect i h = ground arith

pub Selected-of : (m : Module) (i : Inst) → selected m i ≡ true → Selected m i
unfolding selected
Selected-of m i h = elim (Bool-cases (is_inline_asm i)) [
  | inl asm ↦ absurd (ground (arith, asm))
  | inr direct ↦ elim (Option-cases (called_function i)) [
    | inl e ↦ absurd (ground (arith, e))
    | inr (k, e) ↦ elim (Option-cases (get_function k m)) [
      | inl e' ↦ absurd (ground (arith, e, e'))
      | inr (g, e') ↦ record {
        callee = k;
        target = g;
        direct = e;
        found = e';
        marked = ground (arith, e, e');
        defined = ground (arith, e, e');
      }
    ]
  ]
]

pub selected_of : (m : Module) (i : Inst) → Selected m i → selected m i ≡ true
unfolding selected
selected_of m i s = ground (arith, s.direct, s.found, s.marked, s.defined, asm-indirect i)
