-- ===== src/Extract/Select/Lookup.antt =====
-- What the name loops of `LLVMExtract`, src/LLVMExtract.cpp, put into the set.
use squanchy.Base.{
  String, Bool, true, ◌||◌, some, List, [], ◌∷◌, if◌then◌else◌, ◌≡◌, refl, ap, subst, arith, inl,
  inr, any, all, map, same_iff, Bool-cases,
}
use squanchy.Extract.{Gv, alias, variable, function, same_gv, has_gv, insert_gv}
use squanchy.Extract.Recursive.Measure.{has_gv-append}
use squanchy.Extract.Select.{add_named, insert_matching, add_matching}

same_gv-eq : (a b : Gv) → same_gv a b ≡ true → a ≡ b
same_gv-eq (alias a) (alias b) h = ap alias ((same_iff a b).0 h)
same_gv-eq (variable a) (variable b) h = ap variable ((same_iff a b).0 h)
same_gv-eq (function a) (function b) h = ap function ((same_iff a b).0 h)
same_gv-eq (alias a) (variable b) h = absurd (cc)
same_gv-eq (alias a) (function b) h = absurd (cc)
same_gv-eq (variable a) (alias b) h = absurd (cc)
same_gv-eq (variable a) (function b) h = absurd (cc)
same_gv-eq (function a) (alias b) h = absurd (cc)
same_gv-eq (function a) (variable b) h = absurd (cc)

pub has_gv-insert_gv :
    (g h : Gv) (gs : List Gv) → has_gv g (insert_gv h gs) ≡ (has_gv g gs || same_gv h g)
unfolding insert_gv
has_gv-insert_gv g h gs = elim (Bool-cases (has_gv h gs)) [
  | inr e ↦ ground (arith, e, has_gv-append g gs (h ∷ []))
  | inl e ↦ elim (Bool-cases (same_gv h g)) [
    | inr d ↦ ground (arith, e, d)
    | inl d ↦ ground (arith, e, d, subst (λ (x : Gv). has_gv x gs ≡ true) (same_gv-eq h g d) e)
  ]
]

-- A name loop gives a set exactly when every name has its symbol.
pub add_named-some :
    (has : String → Bool) (gv : String → Gv) (ns : List String) (gs out : List Gv)
    → add_named has gv ns gs ≡ some out
    → all has ns ≡ true
unfolding add_named
add_named-some has gv [] gs out h = refl
add_named-some has gv (n ∷ ns) gs out h =
    ground (arith, h, add_named-some has gv ns (insert_gv (gv n) gs) out)

-- The set that a name loop gives holds what it held and the symbols of the names.
pub add_named-has :
    (has : String → Bool) (gv : String → Gv) (ns : List String) (gs out : List Gv) (g : Gv)
    → add_named has gv ns gs ≡ some out
    → has_gv g out ≡ (has_gv g gs || has_gv g (map gv ns))
unfolding add_named
add_named-has has gv [] gs out g h = ground (arith, h)
add_named-has has gv (n ∷ ns) gs out g h = elim (Bool-cases (has n)) [
  | inl e ↦ ground (
    arith,
    has_gv-insert_gv g (gv n) gs,
    add_named-has has gv ns (insert_gv (gv n) gs) out g (ground (arith, e, h)),
  )
  | inr e ↦ absurd (ground (arith, e, h))
]

insert_matching-grows :
    (test : String → Bool) (gv : String → Gv) (ns : List String) (gs : List Gv) (g : Gv)
    → has_gv g gs ≡ true
    → has_gv g (insert_matching test gv ns gs) ≡ true
unfolding insert_matching
insert_matching-grows test gv [] gs g h = h
insert_matching-grows test gv (n ∷ ns) gs g h =
    insert_matching-grows test gv ns (if test n then insert_gv (gv n) gs else gs) g
      (ground (arith, h, has_gv-insert_gv g (gv n) gs))

pub add_matching-grows :
    (matches : String → String → Bool) (gv : String → Gv) (symbols rs : List String)
    (gs out : List Gv) (g : Gv)
    → add_matching matches gv symbols rs gs ≡ some out
    → has_gv g gs ≡ true
    → has_gv g out ≡ true
unfolding add_matching
add_matching-grows matches gv symbols [] gs out g h inside = ground (arith, h, inside)
add_matching-grows matches gv symbols (r ∷ rs) gs out g h inside =
    elim (Bool-cases (any (matches r) symbols)) [
      | inl e ↦
          add_matching-grows matches gv symbols rs (insert_matching (matches r) gv symbols gs) out g
            (ground (arith, e, h)) (insert_matching-grows (matches r) gv symbols gs g inside)
      | inr e ↦ absurd (ground (arith, e, h))
    ]
