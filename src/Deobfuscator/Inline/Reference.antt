-- ===== src/Deobfuscator/Inline/Reference.antt =====
-- An inliner that does what src/Deobfuscator.cpp relies on in LLVM's `InlineFunction`: the contract
-- of that call can be met.
use squanchy.Base.{
  ◌≤◌, all, ◌&&◌, ℕ, suc, ◌+◌, ◌<◌, ◌≡◌, ◌≢◌, refl, sym, ap, ◌∙◌, subst, String, Bool, true, false,
  ◌||◌, Option, none, some, List, [], ◌∷◌, ◌++◌, ◌==◌, ==_iff, if◌then◌else◌, find, same, same_iff,
  arith, inl, inr, Bool-cases, Option-cases,
}
use squanchy.Ir.{
  Inst, Function, Module, called_function, is_declaration, instructions, get_function,
  edit_function,
}
use squanchy.Ir.Functions.{get_function-edit_function, get_function-name}
use squanchy.Ir.Ids.{has_id, Distinct}
use squanchy.Deobfuscator.Inline.Contract.{
  is_direct, AllDirect, weigh, weight, find_inst, Inlined, Inlines,
}

-- Addresses from `k` on.
abbrev renumber : ℕ → List Inst → List Inst
renumber k [] = []
renumber k (i ∷ is) = record i { id = k } ∷ renumber (suc k) is

-- Above every address.
abbrev above : List Inst → ℕ
above [] = 0
above (i ∷ is) = suc (i.id + above is)

-- The instruction `c` replaced by a body.
abbrev splice : ℕ → List Inst → List Inst → List Inst
splice c body [] = []
splice c body (i ∷ is) = if i.id == c then body ++ is else i ∷ splice c body is

abbrev inline_into : ℕ → Function → Function → Function
inline_into c g f = record f {
  blocks = splice c (renumber (above (instructions f)) (instructions g)) (instructions f) ∷ [];
}

-- The function that the call `c` of `name` calls, if it is another one that has a body.
abbrev callee_of : String → Module → ℕ → Option Function
callee_of name m c = elim (get_function name m) [
  | none ↦ none
  | some f ↦ elim (find_inst c f) [
    | none ↦ none
    | some i ↦ elim (called_function i) [
      | none ↦ none
      | some k ↦ elim (get_function k m) [
        | none ↦ none
        | some g ↦ if same k name || is_declaration g then none else some g
      ]
    ]
  ]
]

unfoldable pub inline_at : String → Module → ℕ → Module
inline_at name m c = elim (callee_of name m c) [
  | none ↦ m
  | some g ↦ edit_function name (inline_into c g) m
]

has_id-below : (d : ℕ) (is : List Inst) → has_id d is ≡ true → d < above is
has_id-below d [] h = absurd (cc)
has_id-below d (i ∷ is) h = ground (arith, h, has_id-below d is, ==_iff i.id d)

has_id-renumber : (d k : ℕ) (is : List Inst) → d < k → has_id d (renumber k is) ≡ false
has_id-renumber d k [] h = refl
has_id-renumber d k (i ∷ is) h =
    ground (arith, h, has_id-renumber d (suc k) is (omega (arith, h)), ==_iff k d)

find-has_id :
    (d : ℕ) (is : List Inst) (i : Inst)
    → find (λ (j : Inst). j.id == d) is ≡ some i
    → has_id d is ≡ true
find-has_id d [] i h = absurd (cc)
find-has_id d (j ∷ is) i h = ground (arith, h, find-has_id d is i)

find-append_miss :
    (d : ℕ) (xs ys : List Inst)
    → has_id d xs ≡ false
    → find (λ (j : Inst). j.id == d) (xs ++ ys) ≡ find (λ (j : Inst). j.id == d) ys
find-append_miss d [] ys h = refl
find-append_miss d (x ∷ xs) ys h = ground (arith, h, find-append_miss d xs ys)

find-splice :
    (c d : ℕ) (body is : List Inst)
    → d ≢ c
    → has_id d body ≡ false
    → find (λ (j : Inst). j.id == d) (splice c body is) ≡ find (λ (j : Inst). j.id == d) is
find-splice c d body [] ne h = refl
find-splice c d body (i ∷ is) ne h = elim (Bool-cases (i.id == c)) [
  | inl e ↦ ground (arith, e, h, find-append_miss d body is h, ==_iff i.id c, ==_iff i.id d, ne)
  | inr e ↦ ground (arith, e, find-splice c d body is ne h)
]

has_id-append : (d : ℕ) (xs ys : List Inst) → has_id d (xs ++ ys) ≡ (has_id d xs || has_id d ys)
has_id-append d [] ys = refl
has_id-append d (x ∷ xs) ys = ground (arith, has_id-append d xs ys)

has_id-splice :
    (c d : ℕ) (body is : List Inst)
    → has_id d (splice c body is) ≡ true
    → (has_id d body || has_id d is) ≡ true
has_id-splice c d body [] h = absurd (cc)
has_id-splice c d body (i ∷ is) h =
    ground (arith, h, has_id-splice c d body is, has_id-append d body is)

Distinct-renumber : (k : ℕ) (is : List Inst) → Distinct (renumber k is)
Distinct-renumber k [] = tt
Distinct-renumber k (i ∷ is) =
    (has_id-renumber k (suc k) is (omega arith), Distinct-renumber (suc k) is)

Distinct-append :
    (xs ys : List Inst)
    → Distinct xs
    → Distinct ys
    → ((d : ℕ) → has_id d ys ≡ true → has_id d xs ≡ false)
    → Distinct (xs ++ ys)
Distinct-append [] ys dx dy apart = dy
Distinct-append (x ∷ xs) ys dx dy apart = (
  ground (arith, dx.0, has_id-append x.id xs ys, apart x.id, ==_iff x.id x.id),
  Distinct-append xs ys dx.1 dy (λ d inside. ground (arith, apart d inside)),
)

Distinct-splice :
    (c : ℕ) (body is : List Inst)
    → Distinct is
    → Distinct body
    → ((d : ℕ) → has_id d is ≡ true → has_id d body ≡ false)
    → Distinct (splice c body is)
Distinct-splice c body [] di db apart = tt
Distinct-splice c body (i ∷ is) di db apart = elim (Bool-cases (i.id == c)) [
  | inl e ↦
      subst (λ (x : Bool). Distinct (if x then body ++ is else i ∷ splice c body is)) (sym e)
        (Distinct-append body is db di.1 (λ d inside. apart d (ground (arith, inside))))
  | inr e ↦
      subst (λ (x : Bool). Distinct (if x then body ++ is else i ∷ splice c body is)) (sym e)
        (
          ground (
            arith,
            di.0,
            has_id-splice c i.id body is,
            apart i.id (ground (arith, ==_iff i.id i.id)),
          ),
          Distinct-splice c body is di.1 db (λ d inside. apart d (ground (arith, inside))),
        )
]

weigh-renumber : (w : String → ℕ) (k : ℕ) (is : List Inst) → weigh w (renumber k is) ≡ weigh w is
weigh-renumber w k [] = refl
weigh-renumber w k (i ∷ is) =
    ap (λ (n : ℕ). elim (called_function i) [ none ↦ 0 | some g ↦ w g ] + n)
      (weigh-renumber w (suc k) is)

weigh-append : (w : String → ℕ) (xs ys : List Inst) → weigh w (xs ++ ys) ≡ weigh w xs + weigh w ys
weigh-append w [] ys = omega arith
weigh-append w (x ∷ xs) ys = omega (arith, weigh-append w xs ys)

weigh-splice :
    (w : String → ℕ) (c : ℕ) (body is : List Inst) (i : Inst) (g : String)
    → find (λ (j : Inst). j.id == c) is ≡ some i
    → called_function i ≡ some g
    → weigh w (splice c body is) + w g ≡ weigh w is + weigh w body
weigh-splice w c body [] i g found called = absurd (cc)
weigh-splice w c body (j ∷ is) i g found called = elim (Bool-cases (j.id == c)) [
  | inl e ↦
      let same_inst : j ≡ i = ground (arith, e, found) in
      let called' : called_function j ≡ some g =
        ap (λ (x : Inst). called_function x) same_inst ∙ called in
      ground (arith, e, called', weigh-append w body is)
  | inr e ↦ ground (arith, e, weigh-splice w c body is i g (ground (arith, e, found)) called)
]

append_nil : (is : List Inst) → is ++ [] ≡ is
append_nil [] = refl
append_nil (i ∷ is) = ap (λ (js : List Inst). i ∷ js) (append_nil is)

all-append :
    (xs ys : List Inst)
    → all is_direct xs ≡ true
    → all is_direct ys ≡ true
    → all is_direct (xs ++ ys) ≡ true
all-append [] ys p q = q
all-append (x ∷ xs) ys p q = ground (arith, p, all-append xs ys (ground (arith, p)) q)

all-renumber : (k : ℕ) (is : List Inst) → all is_direct (renumber k is) ≡ all is_direct is
all-renumber k [] = refl
all-renumber k (i ∷ is) = ap (λ (b : Bool). is_direct i && b) (all-renumber (suc k) is)

all-splice :
    (c : ℕ) (body is : List Inst)
    → all is_direct body ≡ true
    → all is_direct is ≡ true
    → all is_direct (splice c body is) ≡ true
all-splice c body [] p q = refl
all-splice c body (i ∷ is) p q = elim (Bool-cases (i.id == c)) [
  | inl e ↦ rw e (all-append body is p (ground (arith, q)))
  | inr e ↦ ground (arith, e, q, all-splice c body is p (ground (arith, q)))
]

inline_into-Inlined :
    (c : ℕ) (f g : Function) (i : Inst)
    → find_inst c f ≡ some i
    → called_function i ≡ some g.name
    → AllDirect f
    → AllDirect g
    → Inlined c f g (inline_into c g f)
inline_into-Inlined c f g i found called direct direct_g =
    let body : List Inst = renumber (above (instructions f)) (instructions g) in
    let insts : splice c body (instructions f) ≡ instructions (inline_into c g f) =
      sym (append_nil (splice c body (instructions f))) in
    record {
      always_inline = refl;
      distinct = λ d.
          subst (λ (is : List Inst). Distinct is) insts
            (Distinct-splice c body (instructions f) d
              (Distinct-renumber (above (instructions f)) (instructions g))
              (λ k inside.
                has_id-renumber k (above (instructions f)) (instructions g)
                  (has_id-below k (instructions f) inside)));
      weights = λ w light.
          subst (λ (is : List Inst). weigh w is + w g.name ≤ weight w f + weight w g) insts
            (omega (
              arith,
              weigh-splice w c body (instructions f) i g.name found called,
              weigh-renumber w (above (instructions f)) (instructions g),
            ));
      others = λ d j k ne at_d called_k. (
        j,
        subst (λ (is : List Inst). find (λ (x : Inst). x.id == d) is ≡ some j) insts
            (find-splice c d body (instructions f) ne (
                has_id-renumber d (above (instructions f)) (instructions g)
                  (has_id-below d (instructions f) (find-has_id d (instructions f) j at_d)))
              ∙ at_d),
        called_k,
      );
      direct =
          subst (λ (is : List Inst). all is_direct is ≡ true) insts
            (all-splice c body (instructions f)
              (all-renumber (above (instructions f)) (instructions g) ∙ direct_g) direct);
    }

same-ne : (a b : String) → a ≢ b → same a b ≡ false
same-ne a b ne = ground (arith, same_iff a b, ne)

inline_at-callee :
    (name : String) (m : Module) (c : ℕ) (f g : Function) (i : Inst)
    → get_function name m ≡ some f
    → find_inst c f ≡ some i
    → called_function i ≡ some g.name
    → g.name ≢ name
    → get_function g.name m ≡ some g
    → is_declaration g ≡ false
    → callee_of name m c ≡ some g
inline_at-callee name m c f g i got found called ne got_g body =
    ground (arith, got, found, called, got_g, body, same-ne g.name name ne)

inline_at-replaces :
    (name : String) (m : Module) (c : ℕ) (f g : Function)
    → get_function name m ≡ some f
    → callee_of name m c ≡ some g
    → get_function name (inline_at name m c) ≡ some (inline_into c g f)
unfolding inline_at
inline_at-replaces name m c f g got callee =
    let named : same f.name name ≡ true =
      (same_iff f.name name).1 (get_function-name name m f got) in
    subst
      (λ (o : Option Function).
        get_function name (elim o [ none ↦ m | some h ↦ edit_function name (inline_into c h) m ])
        ≡ some (inline_into c g f))
      (sym callee)
      (ground
        (arith, get_function-edit_function name name (inline_into c g) m (λ h. refl), got, named))

edit_function-elsewhere :
    (name k : String) (c : ℕ) (g : Function) (m : Module)
    → k ≢ name
    → get_function k (edit_function name (inline_into c g) m) ≡ get_function k m
edit_function-elsewhere name k c g m ne =
    let shown = get_function-edit_function name k (inline_into c g) m (λ h. refl) in
    elim (Option-cases (get_function k m)) [
      | inl e ↦ ground (arith, e, shown)
      | inr (f, e) ↦
          ground
            (arith, e, shown, same-ne f.name name (λ is. ne (sym (get_function-name k m f e) ∙ is)))
    ]

-- The contract of `InlineFunction` holds of the inliner.
pub inline_at-Inlines : (name : String) → Inlines name (λ m c. true) (inline_at name)
unfolding inline_at
inline_at-Inlines name = record {
  replaces = λ m c f g i success got found called ne got_g body direct direct_g. (
    inline_into c g f,
    inline_at-replaces name m c f g got
        (inline_at-callee name m c f g i got found called ne got_g body),
    inline_into-Inlined c f g i found called direct direct_g,
  );
  elsewhere = λ m c k ne.
      inl
        (elim (callee_of name m c)
          as (λ (o : Option Function).
            get_function k (elim o [ none ↦ m | some h ↦ edit_function name (inline_into c h) m ])
            ≡ get_function k m) [ none ↦ refl | some g ↦ edit_function-elsewhere name k c g m ne ]);
}
