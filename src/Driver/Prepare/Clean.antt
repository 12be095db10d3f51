-- ===== src/Driver/Prepare/Clean.antt =====
-- The function that step 7 of `deobfuscateFunction`, src/Deobfuscator.cpp, hands to the optimisation.
use squanchy.Base.{
  ℕ, zero, suc, String, Bool, true, false, not, Option, none, some, List, [], ◌∷◌, ◌≡◌, refl, sym,
  ap, ◌∙◌, subst, arith, inl, inr, any, keep, same, same_iff, any-keep-not, Bool-cases,
  Option-cases, List-cases,
}
use squanchy.Ir.{
  Inst, Function, Module, is_inline_asm, instructions, get_function, edit_function, edit_functions,
}
use squanchy.Ir.Functions.{
  KeepsName, get_function-edit_function, get_function-edit_functions, get_function-name,
}
use squanchy.Ir.Ids.{ids_where}
use squanchy.Deobfuscator.{Deobfuscator, done, ◌>>=◌, >>=-eq-done}
use squanchy.Deobfuscator.Asm.{
  remove_asm_named, remove_asm_named-left, without_asm, without_asm_named, instructions-without_asm,
}
use squanchy.Deobfuscator.Inline.{selected, collect, inline_all, inline_functions}
use squanchy.Driver.{Llvm, Options}
use squanchy.Driver.Prepare.{
  settle, add_no_inline, inline_and_clean, initialize, link_runtime, prepare,
}
use squanchy.Deobfuscator.AlwaysInline.Names.{set_functions_always_inline}
use squanchy.Driver.Prepare.Laws.{
  conflict, settle-all, Tamer, Tamer-trans, edit_function-Tamer, edit_functions-Tamer,
  without_asm_named-Tamer, settle-Tame, add_no_inline-Tame, selected-Tamer,
}

-- The loop ends at a round that collects nothing.
inline_functions-collect :
    (inline_call : Module → ℕ → Module) (arrange : List ℕ → List ℕ) (n : String) (fuel : ℕ)
    (m m' : Module)
    → inline_functions inline_call arrange n fuel m ≡ some m'
    → collect n m' ≡ []
unfolding inline_functions
inline_functions-collect inline_call arrange n zero m m' h = absurd (cc)
inline_functions-collect inline_call arrange n (suc fuel) m m' h = elim (List-cases (collect n m)) [
  | inl e ↦
      let same_module : m ≡ m' = ground (arith, e, h) in
      subst (λ (x : Module). collect n x ≡ []) same_module e
  | inr (c, cs, e) ↦
      inline_functions-collect inline_call arrange n fuel
        (inline_all inline_call (arrange (c ∷ cs)) m) m' (ground (arith, e, h))
]

ids_where-none : (p : Inst → Bool) (is : List Inst) → ids_where p is ≡ [] → any p is ≡ false
unfolding ids_where
ids_where-none p [] h = refl
ids_where-none p (i ∷ is) h = ground (arith, h, ids_where-none p is)

collect-none :
    (n : String) (m : Module) (f : Function)
    → get_function n m ≡ some f
    → collect n m ≡ []
    → any (selected m) (instructions f) ≡ false
unfolding collect
collect-none n m f found h = ids_where-none (selected m) (instructions f) (ground (arith, found, h))

any-keep :
    (p q r : Inst → Bool) (is : List Inst)
    → ((i : Inst) → r i ≡ true → p i ≡ true)
    → any p is ≡ false
    → any r (keep q is) ≡ false
any-keep p q r [] implies h = refl
any-keep p q r (i ∷ is) implies h = elim (Bool-cases (r i)) [
  | inl e ↦ absurd (ground (arith, h, implies i e))
  | inr e ↦ ground (arith, e, h, any-keep p q r is implies)
]

get_function-edit_self :
    (n : String) (edit : Function → Function) (m : Module) (f : Function)
    → KeepsName edit
    → get_function n m ≡ some f
    → get_function n (edit_function n edit m) ≡ some (edit f)
get_function-edit_self n edit m f keeps found =
    let named : same f.name n ≡ true = (same_iff f.name n).1 (get_function-name n m f found) in
    ground (arith, get_function-edit_function n n edit m keeps, found, named)

get_function-without_asm_named :
    (n : String) (m : Module) (f : Function)
    → get_function n m ≡ some f
    → get_function n (without_asm_named n m) ≡ some (without_asm f)
unfolding without_asm_named without_asm
get_function-without_asm_named n m f found =
    subst
      (λ (o : Option Function).
        get_function n (elim o [ none ↦ m | some g ↦ edit_function n without_asm m ])
        ≡ some (without_asm f))
      (sym found) (get_function-edit_self n without_asm m f (λ g. refl) found)

instructions-settle : (f : Function) → instructions (settle f) ≡ instructions f
instructions-settle f = ground arith

-- The module that step 7 leaves, from the one that the inlining left.
abbrev settled : String → Module → Module
settled n m = edit_functions settle (edit_function n add_no_inline (without_asm_named n m))

settled-Tamer : (n : String) (m : Module) → Tamer m (settled n m)
settled-Tamer n m =
    let m₁ : Module = without_asm_named n m in
    let m₂ : Module = edit_function n add_no_inline m₁ in
    Tamer-trans m m₂ (settled n m)
      (Tamer-trans m m₁ m₂ (without_asm_named-Tamer n m)
        (edit_function-Tamer n add_no_inline m₁ add_no_inline-Tame))
      (edit_functions-Tamer settle m₂ settle-Tame)

get_function-settled :
    (n : String) (m : Module) (f : Function)
    → get_function n m ≡ some f
    → get_function n (settled n m) ≡ some (settle (add_no_inline (without_asm f)))
get_function-settled n m f found = ground (
  arith,
  get_function-edit_functions n settle (edit_function n add_no_inline (without_asm_named n m))
      (λ g. (settle-Tame g).0),
  get_function-edit_self n add_no_inline (without_asm_named n m) (without_asm f) (λ g. refl)
      (get_function-without_asm_named n m f found),
)

settled-clean :
    (n : String) (m : Module) (f : Function)
    → collect n m ≡ []
    → get_function n (settled n m) ≡ some f
    → (any is_inline_asm (instructions f) ≡ false)
      × (any (selected (settled n m)) (instructions f) ≡ false)
settled-clean n m f h got =
    let (f₀, found, _, _) = settled-Tamer n m n f got in
    let is : settle (add_no_inline (without_asm f₀)) ≡ f =
      ground (arith, got, get_function-settled n m f₀ found) in
    let rest : instructions f ≡ keep (λ i. not (is_inline_asm i)) (instructions f₀) =
      sym (ap (λ (x : Function). instructions x) is)
      ∙ (instructions-settle (add_no_inline (without_asm f₀)) ∙ instructions-without_asm f₀) in
    (
      rw rest (any-keep-not is_inline_asm (instructions f₀)),
      rw rest (
          any-keep (selected m) (λ i. not (is_inline_asm i)) (selected (settled n m))
            (instructions f₀) (λ i. selected-Tamer m (settled n m) i (settled-Tamer n m))
            (collect-none n m f₀ found h)),
    )

inline_and_clean-settled :
    (llvm : Llvm) (fuel : ℕ) (n : String) (m out : Module)
    → inline_and_clean llvm fuel n m ≡ done out
    → (m' : Module) × (collect n m' ≡ []) × (settled n m' ≡ out)
unfolding inline_and_clean
inline_and_clean-settled llvm fuel n m out h =
    elim (Option-cases (inline_functions (llvm.inline_call n) llvm.arrange n fuel m)) [
      | inl e ↦ absurd (ground (arith, e, h))
      | inr (m', e) ↦
          let (m'', removed, k) =
            >>=-eq-done (remove_asm_named n m')
              (λ x. done (edit_functions settle (edit_function n add_no_inline x))) out
              (ground (arith, e, h)) in
          (
            m',
            inline_functions-collect (llvm.inline_call n) llvm.arrange n fuel m m' e,
            ap (λ (x : Module). edit_functions settle (edit_function n add_no_inline x))
                  (remove_asm_named-left n m' m'' removed)
                ∙ ground (arith, k),
          )
    ]

prepare-settled :
    (llvm : Llvm) (opts : Options) (fuel : ℕ) (n : String) (d d' : Deobfuscator)
    → prepare llvm opts fuel n d ≡ done d'
    → (m' : Module) × (collect n m' ≡ []) × (settled n m' ≡ d'.ir)
unfolding prepare
prepare-settled llvm opts fuel n d d' h =
    let linked : Deobfuscator =
      set_functions_always_inline opts.module_name (link_runtime llvm n d) in
    let (m₁, e₁, k₁) =
      >>=-eq-done (initialize opts n linked.ir)
        (λ m. inline_and_clean llvm fuel n m >>= (λ m'. done (record linked { ir = m' }))) d' h in
    let (m₂, e₂, k₂) =
      >>=-eq-done (inline_and_clean llvm fuel n m₁) (λ m'. done (record linked { ir = m' })) d'
        k₁ in
    let (m', none_left, is) = inline_and_clean-settled llvm fuel n m₁ m₂ e₂ in
    (m', none_left, is ∙ ground (arith, k₂))

-- When the preparation of a function returns, the function holds no inline assembly and no direct
-- call of an always-inline function that has a body.
pub prepare-clean :
    (llvm : Llvm) (opts : Options) (fuel : ℕ) (n : String) (d d' : Deobfuscator) (f : Function)
    → prepare llvm opts fuel n d ≡ done d'
    → get_function n d'.ir ≡ some f
    → (any is_inline_asm (instructions f) ≡ false) × (any (selected d'.ir) (instructions f) ≡ false)
prepare-clean llvm opts fuel n d d' f h got =
    let (m', none_left, is) = prepare-settled llvm opts fuel n d d' h in
    subst
      (λ (x : Module).
        (any is_inline_asm (instructions f) ≡ false) × (any (selected x) (instructions f) ≡ false))
      is
      (settled-clean n m' f none_left
        (subst (λ (x : Module). get_function n x ≡ some f) (sym is) got))

-- When the preparation of a function returns, no function of the module is marked both to be
-- inlined always and never.
pub prepare-conflict :
    (llvm : Llvm) (opts : Options) (fuel : ℕ) (n : String) (d d' : Deobfuscator)
    → prepare llvm opts fuel n d ≡ done d'
    → any conflict d'.ir.functions ≡ false
unfolding edit_functions
prepare-conflict llvm opts fuel n d d' h =
    let (m', none_left, is) = prepare-settled llvm opts fuel n d d' h in
    subst (λ (x : Module). any conflict x.functions ≡ false) is
      (settle-all (edit_function n add_no_inline (without_asm_named n m')).functions)
