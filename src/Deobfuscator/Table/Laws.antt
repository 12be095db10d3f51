-- ===== src/Deobfuscator/Table/Laws.antt =====
-- What `replaceFUNCREF_TABLE` of src/Deobfuscator.cpp leaves of a function.
use squanchy.Base.{
  ℕ, ◌≤◌, ◌≡◌, refl, sym, ap, ◌∙◌, Bool, false, not, some, List, [], subst, ◌⊎◌, ◌∷◌, ◌++◌, keep,
  find, replicate, flatten, arith, inl, inr, Bool-cases, same, ltb,
}
use squanchy.Ir.{Inst, Function, Global, Module, instructions}
use squanchy.Ir.Ids.{
  has_id, Distinct, member, ids_where, ids_where-find, ids_where-DistinctIds, ids_where-lacks,
  ids_where-take, ids_where-pass,
}
use squanchy.Deobfuscator.{done, crash}
use squanchy.Deobfuscator.Table.{table_uses, collect_stores, erase_each, replace_funcref_table}
use squanchy.Deobfuscator.Table.Erase.{
  erase_ids, erase_each-done, present-flatten, has_id_of_find, erase_each-twice,
}
use mathlib.Core.List.{append_assoc}

abbrev pub is_target : Inst → Bool
is_target i = ltb 0 (table_uses i)

-- No store uses the table twice.
abbrev pub UsesOnce : List Inst → Type 0
UsesOnce [] = Unit {0}
UsesOnce (i ∷ is) = (table_uses i ≤ 1) × UsesOnce is

one_or_none : (n : ℕ) → n ≤ 1 → (n ≡ 0) ⊎ (n ≡ 1)
one_or_none n h = grind arith

collect_stores-ids : (is : List Inst) → UsesOnce is → collect_stores is ≡ ids_where is_target is
unfolding collect_stores ids_where
collect_stores-ids [] u = refl
collect_stores-ids (i ∷ is) u = elim (one_or_none (table_uses i) u.0) [
  | inl e ↦ rw (e, collect_stores-ids is u.1)
  | inr e ↦ rw (e, collect_stores-ids is u.1)
]

-- Being listed by address is the same as passing the test.
abbrev Agree : List ℕ → (Inst → Bool) → List Inst → Type 0
Agree cs p [] = Unit {0}
Agree cs p (i ∷ is) = (member i.id cs ≡ p i) × Agree cs p is

Agree-cons :
    (c : ℕ) (cs : List ℕ) (p : Inst → Bool) (is : List Inst)
    → has_id c is ≡ false
    → Agree cs p is
    → Agree (c ∷ cs) p is
Agree-cons c cs p [] h a = tt
Agree-cons c cs p (i ∷ is) h a = (ground (arith, a.0), Agree-cons c cs p is (ground arith) a.1)

Agree-ids_where : (p : Inst → Bool) (is : List Inst) → Distinct is → Agree (ids_where p is) p is
Agree-ids_where p [] d = tt
Agree-ids_where p (i ∷ is) d = elim (Bool-cases (p i)) [
  | inl e ↦
      let tail = Agree-cons i.id (ids_where p is) p is d.0 (Agree-ids_where p is d.1) in
      subst (λ cs. Agree cs p (i ∷ is)) (sym (ids_where-take p i is e)) (ground arith, tail)
  | inr e ↦
      subst (λ cs. Agree cs p (i ∷ is)) (sym (ids_where-pass p i is e))
        (ids_where-lacks p is i.id d.0 ∙ sym e, Agree-ids_where p is d.1)
]

keep-Agree :
    (cs : List ℕ) (p : Inst → Bool) (is : List Inst)
    → Agree cs p is
    → keep (λ i. not (member i.id cs)) is ≡ keep (λ i. not (p i)) is
keep-Agree cs p [] a = refl
keep-Agree cs p (i ∷ is) a = rw (a.0, keep-Agree cs p is a.1)

keep-append : (p : Inst → Bool) (xs ys : List Inst) → keep p (xs ++ ys) ≡ keep p xs ++ keep p ys
keep-append p [] ys = refl
keep-append p (x ∷ xs) ys = ground (arith, keep-append p xs ys)

flatten-erase_ids :
    (cs : List ℕ) (bs : List (List Inst))
    → flatten (erase_ids cs bs) ≡ keep (λ i. not (member i.id cs)) (flatten bs)
flatten-erase_ids cs [] = refl
flatten-erase_ids cs (b ∷ bs) =
    rw (flatten-erase_ids cs bs, keep-append (λ i. not (member i.id cs)) b (flatten bs))

-- Where the module has the table, no two instructions share an address and no store names the table
-- in two operands, the pass returns, and what is left of the function is its instructions that are
-- no stores with the table or a constant address in it as an operand, in order. So a store of the
-- table's address elsewhere is erased like a store into the table.
pub replace_funcref_table-done :
    (m : Module) (f : Function) (g : Global)
    → find (λ (h : Global). same h.name "FUNCREF_TABLE") m.globals ≡ some g
    → Distinct (instructions f)
    → UsesOnce (instructions f)
    → (f' : Function) × (replace_funcref_table m f ≡ done f')
      × (instructions f' ≡ keep (λ i. not (is_target i)) (instructions f))
unfolding replace_funcref_table
replace_funcref_table-done m f g has d once =
    let is = instructions f in
    let ids = ids_where is_target is in
    let erased : erase_each ids f.blocks ≡ done (erase_ids ids f.blocks) =
      erase_each-done ids f.blocks (ids_where-DistinctIds is_target is d) (λ c c_in.
        let (i, at, sel) = ids_where-find is_target is c d c_in in
        present-flatten c f.blocks ∙ has_id_of_find c is i at) in
    (
      record f { blocks = erase_ids ids f.blocks },
      rw (has, replace_funcref_table, collect_stores-ids is once, erased),
      flatten-erase_ids ids f.blocks ∙ keep-Agree ids is_target is (Agree-ids_where is_target is d),
    )

collect_stores-append :
    (xs ys : List Inst) → collect_stores (xs ++ ys) ≡ collect_stores xs ++ collect_stores ys
unfolding collect_stores
collect_stores-append [] ys = refl
collect_stores-append (x ∷ xs) ys =
    rw (collect_stores-append xs ys)
      (sym (append_assoc (replicate (table_uses x) x.id) (collect_stores xs) (collect_stores ys)))

collect_stores-twice :
    (i : Inst) (is : List Inst)
    → table_uses i ≡ 2
    → collect_stores (i ∷ is) ≡ i.id ∷ i.id ∷ collect_stores is
unfolding collect_stores
collect_stores-twice i is e = rw e

-- A store that names the table in two operands, wherever it stands in the function, is listed
-- twice and erased twice, which is undefined.
pub replace_funcref_table-crash :
    (m : Module) (f : Function) (g : Global) (pre : List Inst) (i : Inst) (post : List Inst)
    → find (λ (h : Global). same h.name "FUNCREF_TABLE") m.globals ≡ some g
    → instructions f ≡ pre ++ i ∷ post
    → table_uses i ≡ 2
    → replace_funcref_table m f ≡ crash
unfolding replace_funcref_table
replace_funcref_table-crash m f g pre i post has e uses =
    let listed : collect_stores (instructions f)
        ≡ collect_stores pre ++ i.id ∷ i.id ∷ collect_stores post =
      ap collect_stores e
      ∙ collect_stores-append pre (i ∷ post)
      ∙ ap (λ (cs : List ℕ). collect_stores pre ++ cs) (collect_stores-twice i post uses) in
    rw (
      has,
      replace_funcref_table,
      listed,
      erase_each-twice (collect_stores pre) i.id (collect_stores post) f.blocks,
    )
