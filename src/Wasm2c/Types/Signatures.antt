-- ===== src/Wasm2c/Types/Signatures.antt =====
-- `get_func_type` of samples/obf_1/obf_w2c.c tells the signatures apart by their identifiers.
use squanchy.Base.{
  ℕ, ◌+◌, String, Bool, true, false, not, ◌&&◌, Option, none, some, List, [], ◌∷◌, ◌==◌,
  if◌then◌else◌, ◌≡◌, ◌↔◌, refl, sym, ap, ap₂, ◌∙◌, subst, arith, inl, inr, find, all, length, same,
  same_iff, ==_iff, Bool-cases,
}
use squanchy.Wasm2c.Types.{
  ValueType, i32, i64, f32, f64, v128, funcref, externref, enumerated, same_type, TypeTest,
  has_types, passes, type_tests, search, get_func_type,
}

-- The signature of an identifier.
unfoldable pub signature : String → Option TypeTest
signature t = find (λ (test : TypeTest). same test.id t) type_tests

abbrev numbered : ℕ → ValueType
numbered k =
    if k == 0
    then i32
    else if k == 1
    then i64
    else if k == 2
    then f32
    else if k == 3
    then f64
    else if k == 4
    then v128
    else if k == 5
    then funcref
    else externref

numbered-enumerated : (t : ValueType) → numbered (enumerated t) ≡ t
numbered-enumerated i32 = refl
numbered-enumerated i64 = refl
numbered-enumerated f32 = refl
numbered-enumerated f64 = refl
numbered-enumerated v128 = refl
numbered-enumerated funcref = refl
numbered-enumerated externref = refl

same_type_eq : (s t : ValueType) → same_type s t ≡ true → s ≡ t
same_type_eq s t h =
    sym (numbered-enumerated s)
    ∙ (ap numbered ((==_iff (enumerated s) (enumerated t)).0 h) ∙ numbered-enumerated t)

has_types-eq :
    (expected args : List ValueType)
    → length args ≡ length expected
    → has_types expected args ≡ true
    → args ≡ expected
has_types-eq [] [] e h = refl
has_types-eq [] (a ∷ args) e h = absurd (omega (arith, e))
has_types-eq (t ∷ ts) [] e h = absurd (omega (arith, e))
has_types-eq (t ∷ ts) (a ∷ args) e h =
    ap₂ (λ (x : ValueType) (xs : List ValueType). x ∷ xs) (same_type_eq a t (ground (arith, h)))
      (has_types-eq ts args (omega (arith, e)) (ground (arith, h)))

-- The identifiers differ, each test reads as many types as it counts, and finds itself.
abbrev unique : List TypeTest → Bool
unique [] = true
unique (test ∷ tests) =
    all (λ (other : TypeTest). not (same test.id other.id)) tests && unique tests

unique_tests : unique type_tests ≡ true
unique_tests = refl

counted :
    all (λ (test : TypeTest). length test.types == test.params + test.results) type_tests ≡ true
counted = refl

abbrev gives : Option String → String → Bool
gives none t = false
gives (some s) t = same s t

finds_itself :
    all
      (λ (test : TypeTest). gives (get_func_type test.params test.results test.types) test.id)
      type_tests
    ≡ true
unfolding get_func_type search
finds_itself = refl

all-find :
    (p q : TypeTest → Bool) (tests : List TypeTest) (test : TypeTest)
    → all p tests ≡ true
    → find q tests ≡ some test
    → p test ≡ true
all-find p q [] test h e = absurd (cc)
all-find p q (t ∷ tests) test h e = elim (Bool-cases (q t)) [
  | inl hit ↦
      let same_test : t ≡ test = (let e' : some t ≡ some test = (rw hit at e) in cc) in
      subst (λ (x : TypeTest). p x ≡ true) same_test (ground (arith, h))
  | inr miss ↦ all-find p q tests test (ground (arith, h)) (rw miss at e)
]

skip :
    (test : TypeTest) (tests : List TypeTest) (t : String)
    → same test.id t ≡ false
    → find (λ (other : TypeTest). same other.id t) (test ∷ tests)
      ≡ find (λ (other : TypeTest). same other.id t) tests
skip test tests t h = rw h refl

gives_eq : (o : Option String) (t : String) → gives o t ≡ true → o ≡ some t
gives_eq none t h = absurd (cc)
gives_eq (some s) t h = ap some ((same_iff s t).0 h)

TypeTest-eq :
    (test : TypeTest) (p r : ℕ) (ts : List ValueType) (t : String)
    → test.params ≡ p
    → test.results ≡ r
    → test.types ≡ ts
    → test.id ≡ t
    → test ≡ record { params = p; results = r; types = ts; id = t }
TypeTest-eq test p r ts t a b c d =
    λ i. record { params = a i; results = b i; types = c i; id = d i }

passed-types :
    (test : TypeTest) (p r : ℕ) (args : List ValueType)
    → (length test.types == test.params + test.results) ≡ true
    → length args ≡ p + r
    → passes test p r args ≡ true
    → (test.params ≡ p) × (test.results ≡ r) × (test.types ≡ args)
passed-types test p r args counts count h =
    let ep : p ≡ test.params = ground (arith, h) in
    let er : r ≡ test.results = ground (arith, h) in
    let same_length : length args ≡ length test.types =
      omega (
        arith,
        count,
        ep,
        er,
        (==_iff (length test.types) (test.params + test.results)).0 counts,
      ) in
    (sym ep, sym er, sym (has_types-eq test.types args same_length (ground (arith, h))))

-- A test that gives an identifier is the only one with it.
search-find :
    (tests : List TypeTest) (p r : ℕ) (args : List ValueType) (t : String)
    → unique tests ≡ true
    → search tests p r args ≡ some t
    → (test : TypeTest) × (find (λ (other : TypeTest). same other.id t) tests ≡ some test)
      × (passes test p r args ≡ true)
      × (test.id ≡ t)
unfolding search
search-find [] p r args t u h = absurd (cc)
search-find (test ∷ tests) p r args t u h = elim (Bool-cases (passes test p r args)) [
  | inl hit ↦
      let e : test.id ≡ t = (let h' : some test.id ≡ some t = (rw hit at h) in cc) in
      (let itself : same test.id t ≡ true = (same_iff test.id t).1 e in
        (test, ground (arith, itself), hit, e))
  | inr miss ↦
      let (found, there, passed, e) =
        search-find tests p r args t (ground (arith, u)) (rw miss at h) in
      let other : not (same test.id found.id) ≡ true =
        all-find (λ (other : TypeTest). not (same test.id other.id))
          (λ (other : TypeTest). same other.id t) tests found (ground (arith, u)) there in
      let miss_id : same test.id t ≡ false =
        subst (λ (x : String). same test.id x ≡ false) e (ground (arith, other)) in
      (found, skip test tests t miss_id ∙ there, passed, e)
]

-- For as many types as the counts say, `get_func_type` gives an identifier exactly if it is the
-- one of that signature: the signatures and their identifiers are one to one.
pub get_func_type-exact :
    (p r : ℕ) (args : List ValueType) (t : String)
    → length args ≡ p + r
    → (get_func_type p r args ≡ some t)
      ↔ (signature t ≡ some (record { params = p; results = r; types = args; id = t }))
unfolding signature get_func_type
get_func_type-exact p r args t count = (
  λ h.
      let (test, there, passed, e) = search-find type_tests p r args t unique_tests h in
      let counts =
        all-find (λ (x : TypeTest). length x.types == x.params + x.results)
          (λ (x : TypeTest). same x.id t) type_tests test counted there in
      let (ep, er, ets) = passed-types test p r args counts count passed in
      there ∙ ap some (TypeTest-eq test p r args t ep er ets e),
  λ h. gives_eq (get_func_type p r args) t (
      all-find (λ (x : TypeTest). gives (get_func_type x.params x.results x.types) x.id)
        (λ (x : TypeTest). same x.id t) type_tests
        (record { params = p; results = r; types = args; id = t }) finds_itself h),
)
