-- ===== src/Driver/Prepare/Laws.antt =====
-- What step 7 of `deobfuscateFunction`, src/Deobfuscator.cpp, leaves to the optimisation.
use squanchy.Base.{
  String, Bool, true, false, ◌&&◌, Option, none, some, List, [], ◌∷◌, ◌≡◌, refl, sym, ap, ◌∙◌,
  subst, arith, inl, inr, any, map, same, Bool-cases, Option-cases,
}
use squanchy.Ir.{
  Inst, Function, Module, is_inline_asm, called_function, is_declaration, get_function,
  edit_function, edit_functions,
}
use squanchy.Ir.Functions.{get_function-edit_function, get_function-edit_functions}
use squanchy.Deobfuscator.Asm.{without_asm, without_asm_named, without_asm-is_declaration}
use squanchy.Deobfuscator.Inline.{selected}
use squanchy.Driver.Prepare.{settle, add_no_inline}

-- `F` is never to be inlined and always to be inlined.
abbrev pub conflict : Function → Bool
conflict f = f.no_inline && f.always_inline

pub settle-all : (fs : List Function) → any conflict (map settle fs) ≡ false
settle-all [] = refl
settle-all (f ∷ fs) = ground (arith, settle-all fs)

-- `m'` has no new function, no new mark and the bodies in the same places.
abbrev pub Tamer : Module → Module → Type 0
Tamer m m' =
    (k : String) (g : Function)
    → get_function k m' ≡ some g
    → (h : Function) × (get_function k m ≡ some h)
      × (g.always_inline ≡ true → h.always_inline ≡ true)
      × (is_declaration g ≡ is_declaration h)

abbrev pub Tame : (Function → Function) → Type 0
Tame edit =
    (f : Function)
    → ((edit f).name ≡ f.name)
      × ((edit f).always_inline ≡ true → f.always_inline ≡ true)
      × (is_declaration (edit f) ≡ is_declaration f)

pub edit_function-Tamer :
    (n : String) (edit : Function → Function) (m : Module)
    → Tame edit
    → Tamer m (edit_function n edit m)
edit_function-Tamer n edit m tame k g h =
    let shown = get_function-edit_function n k edit m (λ f. (tame f).0) in
    elim (Option-cases (get_function k m)) [
      | inl e ↦ absurd (ground (arith, e, h, shown))
      | inr (f, e) ↦ elim (Bool-cases (same f.name n)) [
        | inl hit ↦
            let is : edit f ≡ g = ground (arith, e, h, shown, hit) in
            (
              f,
              e,
              λ marked.
                  (tame f).1 (subst (λ (x : Function). x.always_inline ≡ true) (sym is) marked),
              subst (λ (x : Function). is_declaration x ≡ is_declaration f) is (tame f).2,
            )
        | inr miss ↦
            let is : f ≡ g = ground (arith, e, h, shown, miss) in
            (
              f,
              e,
              λ marked. subst (λ (x : Function). x.always_inline ≡ true) (sym is) marked,
              ap (λ (x : Function). is_declaration x) (sym is),
            )
      ]
    ]

pub edit_functions-Tamer :
    (edit : Function → Function) (m : Module) → Tame edit → Tamer m (edit_functions edit m)
edit_functions-Tamer edit m tame k g h =
    let shown = get_function-edit_functions k edit m (λ f. (tame f).0) in
    elim (Option-cases (get_function k m)) [
      | inl e ↦ absurd (ground (arith, e, h, shown))
      | inr (f, e) ↦
          let is : edit f ≡ g = ground (arith, e, h, shown) in
          (
            f,
            e,
            λ marked. (tame f).1 (subst (λ (x : Function). x.always_inline ≡ true) (sym is) marked),
            subst (λ (x : Function). is_declaration x ≡ is_declaration f) is (tame f).2,
          )
    ]

pub Tamer-trans : (l m n : Module) → Tamer l m → Tamer m n → Tamer l n
Tamer-trans l m n lm mn k g h =
    let (g1, e1, a1, d1) = mn k g h in
    let (g2, e2, a2, d2) = lm k g1 e1 in (g2, e2, λ x. a2 (a1 x), d1 ∙ d2)

pub settle-Tame : Tame settle
settle-Tame f = (ground arith, ground arith, ground arith)

pub add_no_inline-Tame : Tame add_no_inline
add_no_inline-Tame f = (refl, λ h. h, refl)

without_asm-Tame : Tame without_asm
unfolding without_asm
without_asm-Tame f = (refl, λ h. h, without_asm-is_declaration f)

pub without_asm_named-Tamer : (n : String) (m : Module) → Tamer m (without_asm_named n m)
unfolding without_asm_named
without_asm_named-Tamer n m =
    elim (get_function n m)
      as (λ (o : Option Function).
        Tamer m (elim o [ none ↦ m | some f ↦ edit_function n without_asm m ])) [
          | none ↦ λ k g h. (g, h, λ x. x, refl)
          | some f ↦ edit_function-Tamer n without_asm m without_asm-Tame
        ]

-- What a round selects in a tamer module it selects in the module.
pub selected-Tamer :
    (m m' : Module) (i : Inst) → Tamer m m' → selected m' i ≡ true → selected m i ≡ true
unfolding selected
selected-Tamer m m' i tamer h = elim (Bool-cases (is_inline_asm i)) [
  | inl asm ↦ absurd (ground (arith, asm, h))
  | inr call ↦ elim (Option-cases (called_function i)) [
    | inl e ↦ absurd (ground (arith, call, e, h))
    | inr (k, e) ↦ elim (Option-cases (get_function k m')) [
      | inl missing ↦ absurd (ground (arith, call, e, missing, h))
      | inr (g, found) ↦
          let (f, at, marks, bodies) = tamer k g found in
          ground (arith, call, e, found, h, at, marks (ground (arith, call, e, found, h)), bodies)
    ]
  ]
]
