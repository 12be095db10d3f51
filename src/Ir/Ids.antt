-- ===== src/Ir/Ids.antt =====
-- Instructions as addresses: lists of `id`s, and the instructions that they name.
use squanchy.Base.{
  ℕ, ◌≡◌, refl, Bool, true, false, some, List, [], ◌∷◌, inl, inr, ◌==◌, if◌then◌else◌, find, any,
  arith, Bool-cases,
}
use squanchy.Ir.{Inst}

abbrev pub has_id : ℕ → List Inst → Bool
has_id c is = any (λ i. i.id == c) is

-- No two instructions share an address.
abbrev pub Distinct : List Inst → Type 0
Distinct [] = Unit {0}
Distinct (i ∷ is) = (has_id i.id is ≡ false) × Distinct is

abbrev pub member : ℕ → List ℕ → Bool
member c cs = any (λ d. d == c) cs

abbrev pub DistinctIds : List ℕ → Type 0
DistinctIds [] = Unit {0}
DistinctIds (c ∷ cs) = (member c cs ≡ false) × DistinctIds cs

-- The addresses of the instructions that pass a test, in order.
unfoldable pub ids_where : (Inst → Bool) → List Inst → List ℕ
ids_where p [] = []
ids_where p (i ∷ is) = if p i then i.id ∷ ids_where p is else ids_where p is

pub ids_where-lacks :
    (p : Inst → Bool) (is : List Inst) (c : ℕ)
    → has_id c is ≡ false
    → member c (ids_where p is) ≡ false
unfolding ids_where
ids_where-lacks p [] c h = refl
ids_where-lacks p (i ∷ is) c h = ground (arith, ids_where-lacks p is c)

pub ids_where-find :
    (p : Inst → Bool) (is : List Inst) (c : ℕ)
    → Distinct is
    → member c (ids_where p is) ≡ true
    → (i : Inst) × (find (λ j. j.id == c) is ≡ some i) × (p i ≡ true)
unfolding ids_where
ids_where-find p [] c d h = absurd (ground arith)
ids_where-find p (i ∷ is) c d h = elim (Bool-cases (i.id == c)) [
  | inl hit ↦ elim (Bool-cases (p i)) [
    | inl sel ↦ (i, ground arith, sel)
    | inr rest ↦ absurd (ground (arith, d.0, ids_where-lacks p is c))
  ]
  | inr miss ↦ let (j, at, sel) = ids_where-find p is c d.1 (ground arith) in (j, rw miss at, sel)
]

pub ids_where-DistinctIds :
    (p : Inst → Bool) (is : List Inst) → Distinct is → DistinctIds (ids_where p is)
unfolding ids_where
ids_where-DistinctIds p [] d = tt
ids_where-DistinctIds p (i ∷ is) d = elim (Bool-cases (p i)) [
  | inl sel ↦ rw sel (ids_where-lacks p is i.id d.0, ids_where-DistinctIds p is d.1)
  | inr rest ↦ rw rest (ids_where-DistinctIds p is d.1)
]

pub ids_where-take :
    (p : Inst → Bool) (i : Inst) (is : List Inst)
    → p i ≡ true
    → ids_where p (i ∷ is) ≡ i.id ∷ ids_where p is
unfolding ids_where
ids_where-take p i is e = rw e

pub ids_where-pass :
    (p : Inst → Bool) (i : Inst) (is : List Inst)
    → p i ≡ false
    → ids_where p (i ∷ is) ≡ ids_where p is
unfolding ids_where
ids_where-pass p i is e = rw e
