-- ===== src/Deobfuscator/Callocs/Splice.antt =====
-- The calls of calloc in a list of instructions, under the edits of `replaceCallocs` of
-- src/Deobfuscator.cpp.
use squanchy.Base.{
  ℕ, ◌≤◌, ◌≡◌, refl, sym, ap, ap₂, ◌∙◌, arith, String, Bool, true, false, not, ◌&&◌, ◌||◌, Option,
  none, some, List, [], ◌∷◌, ◌++◌, ◌==◌, if◌then◌else◌, map, find, flatten, all, length, leb, inl,
  inr, Bool-cases, same, length-map, keep,
}
use mathlib.Core.List.{append_assoc}
use squanchy.Ir.{Value, Inst, is_call, last}
use squanchy.Ir.Ids.{member, ids_where}
use squanchy.Deobfuscator.Instance.{max_id}
use squanchy.Deobfuscator.Callocs.{is_calloc, replace_use, replace_uses, splice}

-- A call of calloc with its two arguments, and the callee behind them.
abbrev pub ready : Inst → Bool
ready i = is_calloc i && leb 3 (length i.operands)

-- The instructions at the addresses are such calls.
abbrev pub AreReady : List ℕ → List Inst → Type 0
AreReady cs is = all (λ (i : Inst). not (member i.id cs) || ready i) is ≡ true

abbrev callee_of : Option Value → Option String
callee_of o = elim o [ some (Value.func f) ↦ some f | _ ↦ none ]

callee-replace_use :
    (c k : ℕ) (vs : List Value) → callee_of (last (map (replace_use c k) vs)) ≡ callee_of (last vs)
callee-replace_use c k [] = refl
callee-replace_use c k (Value.inst j ∷ []) = elim (Bool-cases (j == c)) [
  | inl e ↦ rw e refl
  | inr e ↦ rw e refl
]
callee-replace_use c k (Value.arg j ∷ []) = refl
callee-replace_use c k (Value.func f ∷ []) = refl
callee-replace_use c k (Value.global g ∷ []) = refl
callee-replace_use c k (Value.gep g j ∷ []) = refl
callee-replace_use c k (Value.inline_asm ∷ []) = refl
callee-replace_use c k (Value.other j ∷ []) = refl
callee-replace_use c k (v ∷ w ∷ vs) = callee-replace_use c k (w ∷ vs)

is_calloc-replace_uses : (c k : ℕ) (i : Inst) → is_calloc (replace_uses c k i) ≡ is_calloc i
is_calloc-replace_uses c k i =
    ap
      (λ (o : Option String). elim (if is_call i then o else none) [
        | none ↦ false
        | some f ↦ same f "calloc"
      ])
      (callee-replace_use c k i.operands)

length-replace_uses :
    (c k : ℕ) (i : Inst) → length (replace_uses c k i).operands ≡ length i.operands
length-replace_uses c k i = length-map (replace_use c k) i.operands

pub ids_where-replace_uses :
    (c k : ℕ) (is : List Inst)
    → ids_where is_calloc (map (replace_uses c k) is) ≡ ids_where is_calloc is
unfolding ids_where
ids_where-replace_uses c k [] = refl
ids_where-replace_uses c k (i ∷ is) =
    rw (is_calloc-replace_uses c k i, ids_where-replace_uses c k is)

ready-replace_uses : (c k : ℕ) (i : Inst) → ready (replace_uses c k i) ≡ ready i
ready-replace_uses c k i =
    ap₂ (λ (b : Bool) (n : ℕ). b && leb 3 n) (is_calloc-replace_uses c k i)
      (length-replace_uses c k i)

pub AreReady-replace_uses :
    (cs : List ℕ) (c k : ℕ) (is : List Inst)
    → AreReady cs is
    → AreReady cs (map (replace_uses c k) is)
AreReady-replace_uses cs c k [] h = refl
AreReady-replace_uses cs c k (i ∷ is) h =
    rw (ready-replace_uses c k i)
      (ground (arith, h, AreReady-replace_uses cs c k is (ground (arith, h))))

splice-append :
    (c : ℕ) (new xs ys : List Inst) → splice c new (xs ++ ys) ≡ splice c new xs ++ splice c new ys
splice-append c new [] ys = refl
splice-append c new (x ∷ xs) ys = elim (Bool-cases (x.id == c)) [
  | inl e ↦ rw e (
      ap (λ (t : List Inst). new ++ t) (splice-append c new xs ys)
      ∙ sym (append_assoc new (splice c new xs) (splice c new ys)))
  | inr e ↦ rw e (ap (λ (t : List Inst). x ∷ t) (splice-append c new xs ys))
]

pub flatten-splice :
    (c : ℕ) (new : List Inst) (bs : List (List Inst))
    → flatten (map (splice c new) bs) ≡ splice c new (flatten bs)
flatten-splice c new [] = refl
flatten-splice c new (b ∷ bs) =
    ap (λ (t : List Inst). splice c new b ++ t) (flatten-splice c new bs)
    ∙ sym (splice-append c new b (flatten bs))

ids_where-append :
    (p : Inst → Bool) (xs ys : List Inst)
    → ids_where p (xs ++ ys) ≡ ids_where p xs ++ ids_where p ys
unfolding ids_where
ids_where-append p [] ys = refl
ids_where-append p (x ∷ xs) ys = elim (Bool-cases (p x)) [
  | inl e ↦ rw e (ap (λ (t : List ℕ). x.id ∷ t) (ids_where-append p xs ys))
  | inr e ↦ rw e (ids_where-append p xs ys)
]

abbrev pub without : ℕ → List ℕ → List ℕ
without c cs = keep (λ d. not (d == c)) cs

pub without-lacks : (c : ℕ) (cs : List ℕ) → member c cs ≡ false → without c cs ≡ cs
without-lacks c [] h = refl
without-lacks c (d ∷ cs) h =
    let other : (d == c) ≡ false = ground (arith, h) in
    rw other (ap (λ (t : List ℕ). d ∷ t) (without-lacks c cs (ground (arith, h))))

pub ids_where-splice :
    (p : Inst → Bool) (c : ℕ) (new is : List Inst)
    → ids_where p new ≡ []
    → ids_where p (splice c new is) ≡ without c (ids_where p is)
unfolding ids_where
ids_where-splice p c new [] e = refl
ids_where-splice p c new (i ∷ is) e = elim (Bool-cases (i.id == c)) [
  | inl hit ↦ elim (Bool-cases (p i)) [
    | inl sel ↦
        rw (hit, sel)
          (rw hit (
            ids_where-append p new (splice c new is)
            ∙ ap₂ (λ (a b : List ℕ). a ++ b) e (ids_where-splice p c new is e)))
    | inr rest ↦
        rw (hit, rest)
          (ids_where-append p new (splice c new is)
            ∙ ap₂ (λ (a b : List ℕ). a ++ b) e (ids_where-splice p c new is e))
  ]
  | inr miss ↦ elim (Bool-cases (p i)) [
    | inl sel ↦
        rw (miss, sel) (rw miss (ap (λ (t : List ℕ). i.id ∷ t) (ids_where-splice p c new is e)))
    | inr rest ↦ rw (miss, rest) (ids_where-splice p c new is e)
  ]
]

all-append :
    (p : Inst → Bool) (xs ys : List Inst)
    → all p xs ≡ true
    → all p ys ≡ true
    → all p (xs ++ ys) ≡ true
all-append p [] ys h h' = h'
all-append p (x ∷ xs) ys h h' = ground (arith, h, all-append p xs ys (ground (arith, h)) h')

pub AreReady-splice :
    (c : ℕ) (cs : List ℕ) (new is : List Inst)
    → AreReady cs new
    → AreReady (c ∷ cs) is
    → AreReady cs (splice c new is)
AreReady-splice c cs new [] n h = refl
AreReady-splice c cs new (i ∷ is) n h =
    let rest = AreReady-splice c cs new is n (ground (arith, h)) in
    elim (Bool-cases (i.id == c)) [
      | inl hit ↦
          rw hit (
            all-append (λ (x : Inst). not (member x.id cs) || ready x) new (splice c new is) n rest)
      | inr miss ↦ rw miss (ground (arith, h, rest, miss))
    ]

pub bounded :
    (p : Inst → Bool) (is : List Inst) (c : ℕ) → member c (ids_where p is) ≡ true → c ≤ max_id is
unfolding ids_where
bounded p [] c h = absurd (cc)
bounded p (i ∷ is) c h = elim (Bool-cases (i.id == c)) [
  | inl hit ↦ ground (arith, hit)
  | inr miss ↦
      let rest : c ≤ max_id is = bounded p is c (ground (arith, h, miss)) in ground (arith, rest)
]

pub find-ready :
    (c : ℕ) (cs : List ℕ) (is : List Inst)
    → member c (ids_where is_calloc is) ≡ true
    → AreReady (c ∷ cs) is
    → (i : Inst) × (find (λ (j : Inst). j.id == c) is ≡ some i) × (ready i ≡ true) × (i.id ≡ c)
unfolding ids_where
find-ready c cs [] m h = absurd (cc)
find-ready c cs (i ∷ is) m h = elim (Bool-cases (i.id == c)) [
  | inl hit ↦ let e : i.id ≡ c = ground (arith, hit) in (i, rw hit refl, ground (arith, h, e), e)
  | inr miss ↦
      let (j, found, r, e) = find-ready c cs is (ground (arith, m, miss)) (ground (arith, h)) in
      (j, rw miss found, r, e)
]

pub three :
    (vs : List Value)
    → leb 3 (length vs) ≡ true
    → (a b callee : Value) × (rest : List Value) × (vs ≡ a ∷ b ∷ callee ∷ rest)
three [] h = absurd (ground (arith, h))
three (a ∷ []) h = absurd (ground (arith, h))
three (a ∷ b ∷ []) h = absurd (ground (arith, h))
three (a ∷ b ∷ callee ∷ rest) h = (a, b, callee, rest, refl)
