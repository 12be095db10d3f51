-- ===== src/Deobfuscator/Callocs/Laws.antt =====
-- What `replaceCallocs` of src/Deobfuscator.cpp leaves of a function.
use squanchy.Base.{
  ℕ, ◌+◌, ◌<◌, ◌≡◌, refl, sym, ap, ap₂, ◌∙◌, subst, arith, true, false, not, ◌||◌, Option, none,
  some, List, [], ◌∷◌, ◌==◌, map, find, all, length, leb, inl, inr, Bool-cases,
}
use squanchy.Ir.{Value, Inst, Function, instructions, edit_insts}
use squanchy.Ir.Functions.{instructions-edit_insts}
use squanchy.Ir.Ids.{
  has_id, member, DistinctIds, Distinct, ids_where, ids_where-DistinctIds, ids_where-lacks,
  ids_where-take, ids_where-pass,
}
use squanchy.Deobfuscator.{Outcome, done, crash, ◌>>=◌}
use squanchy.Deobfuscator.Instance.{max_id, fresh}
use squanchy.Deobfuscator.Callocs.{
  is_calloc, replace_uses, made, splice, replace_calloc, replace_each, replace_callocs,
}
use squanchy.Deobfuscator.Callocs.Splice.{
  ready, AreReady, without, without-lacks, ids_where-replace_uses, AreReady-replace_uses,
  flatten-splice, ids_where-splice, AreReady-splice, bounded, find-ready, three,
}

abbrev Fold : Type 0
Fold = Value → Value → Option Value

made-none : (o : Option Value) (k : ℕ) (a b : Value) → ids_where is_calloc (made o k a b) ≡ []
unfolding ids_where
made-none none k a b = refl
made-none (some v) k a b = refl

made-AreReady :
    (o : Option Value) (k : ℕ) (a b : Value) (cs : List ℕ)
    → member k cs ≡ false
    → member (k + 1) cs ≡ false
    → AreReady cs (made o k a b)
made-AreReady none k a b cs m n = rw (m, n) refl
made-AreReady (some v) k a b cs m n = rw n refl

-- The function after one call was replaced.
replaced : Fold → Function → Inst → Value → Value → Function
replaced fold f site a b =
    edit_insts (replace_uses site.id (fresh f + 1))
      (record f { blocks = map (splice site.id (made (fold a b) (fresh f) a b)) f.blocks })

instructions-replaced :
    (fold : Fold) (f : Function) (site : Inst) (a b : Value)
    → instructions (replaced fold f site a b)
      ≡ map
          (replace_uses site.id (fresh f + 1))
          (splice site.id (made (fold a b) (fresh f) a b) (instructions f))
unfolding replaced
instructions-replaced fold f site a b =
    instructions-edit_insts (replace_uses site.id (fresh f + 1))
      (record f { blocks = map (splice site.id (made (fold a b) (fresh f) a b)) f.blocks })
    ∙ ap (map (replace_uses site.id (fresh f + 1)))
        (flatten-splice site.id (made (fold a b) (fresh f) a b) f.blocks)

replace_calloc-operands :
    (fold : Fold) (f : Function) (site : Inst) (a b callee : Value) (rest : List Value)
    → site.operands ≡ a ∷ b ∷ callee ∷ rest
    → replace_calloc fold f site ≡ done (replaced fold f site a b)
unfolding replace_calloc replaced
replace_calloc-operands fold f site a b callee rest e = rw e refl

replace_calloc-done :
    (fold : Fold) (f : Function) (site : Inst)
    → ready site ≡ true
    → (a b : Value) × (replace_calloc fold f site ≡ done (replaced fold f site a b))
replace_calloc-done fold f site r =
    let (a, b, callee, rest, e) = three site.operands (ground (arith, r)) in
    (a, b, replace_calloc-operands fold f site a b callee rest e)

-- No address above the highest one is among the calls.
unused :
    (f : Function) (c : ℕ) (cs : List ℕ) (k : ℕ)
    → ids_where is_calloc (instructions f) ≡ c ∷ cs
    → max_id (instructions f) < k
    → member k cs ≡ false
unused f c cs k e high = elim (Bool-cases (member k cs)) [
  | inr m ↦ m
  | inl m ↦
      let there : member k (c ∷ cs) ≡ true = ground (arith, m) in
      absurd (
        omega (
          arith,
          high,
          bounded is_calloc (instructions f) k
              (subst (λ (xs : List ℕ). member k xs ≡ true) (sym e) there),
        ))
]

replace_each-first :
    (fold : Fold) (c : ℕ) (cs : List ℕ) (f f' : Function) (site : Inst)
    → find (λ (i : Inst). i.id == c) (instructions f) ≡ some site
    → replace_calloc fold f site ≡ done f'
    → replace_each fold (c ∷ cs) f ≡ replace_each fold cs f'
unfolding replace_each
replace_each-first fold c cs f f' site found runs =
    ap
      (λ (o : Option Inst). elim o [
        | none ↦ crash
        | some i ↦ replace_calloc fold f i >>= replace_each fold cs
      ])
      found
    ∙ ap (λ (r : Outcome Function). r >>= replace_each fold cs) runs

fresh-high : (f : Function) → max_id (instructions f) < fresh f
unfolding fresh
fresh-high f = omega arith

without-first : (c : ℕ) (cs : List ℕ) → member c cs ≡ false → without c (c ∷ cs) ≡ cs
without-first c cs h = let hit : (c == c) ≡ true = ground arith in rw hit (without-lacks c cs h)

replace_each-done :
    (fold : Fold) (cs : List ℕ) (f : Function)
    → ids_where is_calloc (instructions f) ≡ cs
    → DistinctIds cs
    → AreReady cs (instructions f)
    → (f' : Function) × (replace_each fold cs f ≡ done f')
      × (ids_where is_calloc (instructions f') ≡ [])
unfolding replace_each
replace_each-done fold [] f e d r = (f, refl, e)
replace_each-done fold (c ∷ cs) f e d r =
    let here : member c (ids_where is_calloc (instructions f)) ≡ true =
      subst (λ (xs : List ℕ). member c xs ≡ true) (sym e) (ground arith) in
    let (site, found, ready_site, at_c) = find-ready c cs (instructions f) here r in
    let (a, b, runs) = replace_calloc-done fold f site ready_site in
    let new : List Inst = made (fold a b) (fresh f) a b in
    let f' : Function = replaced fold f site a b in
    let shape = instructions-replaced fold f site a b in
    let ids : ids_where is_calloc (instructions f') ≡ cs =
      ap (ids_where is_calloc) shape
      ∙ (ids_where-replace_uses site.id (fresh f + 1) (splice site.id new (instructions f))
          ∙ (ids_where-splice is_calloc site.id new (instructions f)
                (made-none (fold a b) (fresh f) a b)
              ∙ (ap₂ without at_c e ∙ without-first c cs d.0))) in
    let well : AreReady cs (instructions f') = subst (AreReady cs) (sym shape) (
      AreReady-replace_uses cs site.id (fresh f + 1) (splice site.id new (instructions f)) (
        AreReady-splice site.id cs new (instructions f)
          (made-AreReady (fold a b) (fresh f) a b cs (unused f c cs (fresh f) e (fresh-high f))
            (unused f c cs (fresh f + 1) e (omega (arith, fresh-high f))))
          (subst (λ (k : ℕ). AreReady (k ∷ cs) (instructions f)) (sym at_c) r))) in
    let (last, rest, none_left) = replace_each-done fold cs f' ids d.1 well in
    (last, replace_each-first fold c cs f f' site found runs ∙ rest, none_left)

lacks-AreReady :
    (c : ℕ) (cs : List ℕ) (is : List Inst)
    → has_id c is ≡ false
    → AreReady cs is
    → AreReady (c ∷ cs) is
lacks-AreReady c cs [] h r = refl
lacks-AreReady c cs (i ∷ is) h r =
    ground (arith, h, r, lacks-AreReady c cs is (ground (arith, h)) (ground (arith, r)))

-- Calls of calloc pass two arguments.
abbrev pub PassArguments : List Inst → Type 0
PassArguments is = all (λ (i : Inst). not (is_calloc i) || leb 3 (length i.operands)) is ≡ true

calls-AreReady :
    (is : List Inst) → Distinct is → PassArguments is → AreReady (ids_where is_calloc is) is
calls-AreReady [] d h = refl
calls-AreReady (i ∷ is) d h =
    let rest = calls-AreReady is d.1 (ground (arith, h)) in
    let lacks = ids_where-lacks is_calloc is i.id d.0 in
    elim (Bool-cases (is_calloc i)) [
      | inl sel ↦
          let later = lacks-AreReady i.id (ids_where is_calloc is) is d.0 rest in
          let two : leb 3 (length i.operands) ≡ true = ground (arith, sel, h) in
          subst (λ (cs : List ℕ). AreReady cs (i ∷ is)) (sym (ids_where-take is_calloc i is sel))
            (rw (sel, two) (ground (arith, later)))
      | inr other ↦
          subst (λ (cs : List ℕ). AreReady cs (i ∷ is)) (sym (ids_where-pass is_calloc i is other))
            (rw lacks rest)
    ]

-- Where no two instructions share an address and every call of calloc has two arguments, the pass
-- returns, and no call of calloc is left.
pub replace_callocs-done :
    (fold : Value → Value → Option Value) (f : Function)
    → Distinct (instructions f)
    → PassArguments (instructions f)
    → (f' : Function) × (replace_callocs fold f ≡ done f')
      × (ids_where is_calloc (instructions f') ≡ [])
unfolding replace_callocs
replace_callocs-done fold f d h =
    replace_each-done fold (ids_where is_calloc (instructions f)) f refl
      (ids_where-DistinctIds is_calloc (instructions f) d) (calls-AreReady (instructions f) d h)
