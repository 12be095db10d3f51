-- ===== src/Deobfuscator/Instance/Refs.antt =====
-- What `replaceInstanceRefs` of src/Deobfuscator.cpp does to the calls of the module's functions.
use text.Mathlib.Text.{starts_with}
use squanchy.Base.{
  ◌≡◌, ◌≢◌, refl, ◌==◌, length, Bool, true, false, ◌||◌, ◌&&◌, none, some, List, [], ◌∷◌, ◌++◌, any,
  arith, inl, inr, Bool-cases, Option-cases, List-cases, flatten, ◌⊎◌,
}
use squanchy.Ir.{Value, Inst, Function, called_function, instructions}
use squanchy.Deobfuscator.{done, crash}
use squanchy.Deobfuscator.Instance.{
  replace_ref, replace_refs, replace_refs_of, replace_instance_refs,
}

-- A direct call of one of the module's functions.
abbrev pub is_own_call : Inst → Bool
is_own_call i = elim (called_function i) [ none ↦ false | some g ↦ starts_with g "w2c_squanchy_" ]

-- One without an argument, whose callee is its only operand.
abbrev pub is_bare : Inst → Bool
is_bare i = is_own_call i && length i.operands == 1

-- What becomes of an instruction: a call of the module's functions passes the instance and keeps
-- its callee and its other arguments, any other instruction is the same.
abbrev pub PassedOn : Inst → Inst → Type 0
PassedOn i j = elim (is_own_call i) [
  | true ↦
      (v : Value) × (w : Value) × (vs : List Value) × (i.operands ≡ v ∷ w ∷ vs)
      × (j ≡ record i { operands = Value.arg 0 ∷ w ∷ vs })
      × (called_function j ≡ called_function i)
  | false ↦ j ≡ i
]

abbrev pub AllPassedOn : List Inst → List Inst → Type 0
AllPassedOn [] [] = Unit
AllPassedOn [] (j ∷ js) = ⊥
AllPassedOn (i ∷ is) [] = ⊥
AllPassedOn (i ∷ is) (j ∷ js) = PassedOn i j × AllPassedOn is js

replace_ref-PassedOn :
    (i : Inst) → is_bare i ≡ false → (j : Inst) × (replace_ref i ≡ done j) × PassedOn i j
unfolding replace_ref
replace_ref-PassedOn i h = elim (Option-cases (called_function i)) [
  | inl e ↦ (i, ground (arith, e), rw (PassedOn, e) refl)
  | inr (g, e) ↦ elim (Bool-cases (starts_with g "w2c_squanchy_")) [
    | inr other ↦ (i, ground (arith, e, other), rw (PassedOn, e, other) refl)
    | inl prefix ↦ elim (List-cases i.operands) [
      | inl ops ↦ absurd (ground (arith, e, ops))
      | inr (v, vs, ops) ↦ elim (List-cases vs) [
        | inl ops' ↦ absurd (ground (arith, e, h, prefix, ops, ops'))
        | inr (w, ws, ops') ↦ (
          record i { operands = Value.arg 0 ∷ w ∷ ws },
          ground (arith, e, prefix, ops, ops'),
          rw (PassedOn, e, prefix)
              (v, w, ws, ground (arith, ops, ops'), refl, ground (arith, e, ops, ops')),
        )
      ]
    ]
  ]
]

replace_ref-bare : (i : Inst) → is_bare i ≡ true → replace_ref i ≡ crash
unfolding replace_ref
replace_ref-bare i h = elim (Option-cases (called_function i)) [
  | inl e ↦ absurd (ground (arith, e, h))
  | inr (g, e) ↦ ground (arith, e, h)
]

replace_refs-PassedOn :
    (is : List Inst)
    → any is_bare is ≡ false
    → (js : List Inst) × (replace_refs is ≡ done js) × AllPassedOn is js
unfolding replace_refs
replace_refs-PassedOn [] h = ([], refl, tt)
replace_refs-PassedOn (i ∷ is) h =
    let (j, e, p) = replace_ref-PassedOn i (ground (arith, h)) in
    let (js, e', ps) = replace_refs-PassedOn is (ground (arith, h)) in
    (j ∷ js, rw (replace_refs, e, e') refl, (p, ps))

replace_refs-bare : (is : List Inst) → any is_bare is ≡ true → replace_refs is ≡ crash
unfolding replace_refs
replace_refs-bare [] h = absurd (cc)
replace_refs-bare (i ∷ is) h = elim (Bool-cases (is_bare i)) [
  | inl bare ↦ rw (replace_refs, replace_ref-bare i bare) refl
  | inr fine ↦
      let (j, e, p) = replace_ref-PassedOn i fine in
      rw (replace_refs, e, replace_refs-bare is (ground (arith, h, fine))) refl
]

AllPassedOn-append :
    (is js is' js' : List Inst)
    → AllPassedOn is js
    → AllPassedOn is' js'
    → AllPassedOn (is ++ is') (js ++ js')
AllPassedOn-append [] [] is' js' p q = q
AllPassedOn-append [] (j ∷ js) is' js' p q = absurd p
AllPassedOn-append (i ∷ is) [] is' js' p q = absurd p
AllPassedOn-append (i ∷ is) (j ∷ js) is' js' (p, ps) q = (p, AllPassedOn-append is js is' js' ps q)

any-append : (p : Inst → Bool) (xs ys : List Inst) → any p (xs ++ ys) ≡ (any p xs || any p ys)
any-append p [] ys = refl
any-append p (x ∷ xs) ys = ground (arith, any-append p xs ys)

replace_refs_of-PassedOn :
    (bs : List (List Inst))
    → any is_bare (flatten bs) ≡ false
    → (cs : List (List Inst)) × (replace_refs_of bs ≡ done cs)
      × AllPassedOn (flatten bs) (flatten cs)
unfolding replace_refs_of
replace_refs_of-PassedOn [] h = ([], refl, tt)
replace_refs_of-PassedOn (b ∷ bs) h =
    let split = any-append is_bare b (flatten bs) in
    let (c, e, p) = replace_refs-PassedOn b (ground (arith, h, split)) in
    let (cs, e', ps) = replace_refs_of-PassedOn bs (ground (arith, h, split)) in
    (
      c ∷ cs,
      rw (replace_refs_of, e, e') refl,
      AllPassedOn-append b c (flatten bs) (flatten cs) p ps,
    )

replace_refs_of-bare :
    (bs : List (List Inst)) → any is_bare (flatten bs) ≡ true → replace_refs_of bs ≡ crash
unfolding replace_refs_of
replace_refs_of-bare [] h = absurd (cc)
replace_refs_of-bare (b ∷ bs) h =
    let split = any-append is_bare b (flatten bs) in
    elim (Bool-cases (any is_bare b)) [
      | inl bare ↦ rw (replace_refs_of, replace_refs-bare b bare) refl
      | inr fine ↦
          let (c, e, p) = replace_refs-PassedOn b fine in
          rw (replace_refs_of, e, replace_refs_of-bare bs (ground (arith, h, fine, split))) refl
    ]

-- Where the function has an argument, and every direct call in it of a function whose name starts
-- with `w2c_squanchy_` has one, the pass returns. Each such call then passes the function's first
-- argument as its own first, and keeps its callee and its other arguments; every other instruction
-- is as it was, and they stand in the same order.
pub replace_instance_refs-passes :
    (f : Function)
    → f.arg_size ≢ 0
    → any is_bare (instructions f) ≡ false
    → (f' : Function) × (replace_instance_refs f ≡ done f')
      × AllPassedOn (instructions f) (instructions f')
unfolding replace_instance_refs
replace_instance_refs-passes f args fine =
    let (bs, e, p) = replace_refs_of-PassedOn f.blocks fine in
    let some_args : f.arg_size == 0 ≡ false = ground (arith, args) in
    (record f { blocks = bs }, rw (replace_instance_refs, some_args, e) refl, p)

-- Where some direct call of a function whose name starts with `w2c_squanchy_` has no argument, or
-- the function itself has none, the pass runs into undefined behaviour.
pub replace_instance_refs-crash :
    (f : Function)
    → (f.arg_size ≡ 0) ⊎ (any is_bare (instructions f) ≡ true)
    → replace_instance_refs f ≡ crash
unfolding replace_instance_refs
replace_instance_refs-crash f (inl none_there) = ground (arith, none_there)
replace_instance_refs-crash f (inr bare) = elim (Bool-cases (f.arg_size == 0)) [
  | inl e ↦ rw (replace_instance_refs, e) refl
  | inr e ↦ rw (replace_instance_refs, e, replace_refs_of-bare f.blocks bare) refl
]
