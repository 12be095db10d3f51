-- ===== src/Deobfuscator/Inline/Termination.antt =====
-- The rounds of `inlineFunctions` end, if the calls of always-inline functions are not recursive:
-- src/Deobfuscator.cpp.
use squanchy.Base.{
  Bool, false, ℕ, zero, suc, ◌+◌, ◌≤◌, ◌<◌, ◌≡◌, ◌≢◌, refl, sym, ap, ◌∙◌, String, true, false, none,
  some, List, [], ◌∷◌, inl, inr, length, arith, List-cases,
}
use squanchy.Ir.{
  called_function, Inst, Function, Module, is_declaration, instructions, get_function,
}
use squanchy.Ir.Functions.{get_function-name}
use squanchy.Deobfuscator.Inline.{selected, collect, inline_all, inline_functions}
use squanchy.Deobfuscator.Inline.Selection.{Selected, Selected-of, selected_of}
use squanchy.Deobfuscator.Inline.Contract.{
  weight, find_inst, AllDirect, Light, Untouched, Inlines, Arranges,
}
use squanchy.Ir.Ids.{
  Distinct, member, DistinctIds, ids_where, ids_where-find, ids_where-DistinctIds,
}

-- A ranking of the functions: a marked function weighs more than the calls in its body, all of
-- which are direct.
abbrev pub Ranked : (String → ℕ) → String → Module → Type 0
Ranked w name m =
    (g : Function) (k : String)
    → k ≢ name
    → get_function k m ≡ some g
    → g.always_inline ≡ true
    → is_declaration g ≡ false
    → (weight w g < w k) × AllDirect g

-- The state between two inlinings.
pub record Ready (w : String → ℕ) (name : String) (m : Module) (f : Function) : Type 0 where
  pub got : get_function name m ≡ some f
  pub unmarked : f.always_inline ≡ false
  pub distinct : Distinct (instructions f)
  pub direct : AllDirect f
  pub light : Light w
  pub ranked : Ranked w name m

abbrev pub Pending : Module → Function → ℕ → Type 0
Pending m f c = (i : Inst) × (find_inst c f ≡ some i) × (selected m i ≡ true)

inline_all-id :
    (inline_call : Module → ℕ → Module) (m : Module)
    → ((c : ℕ) → inline_call m c ≡ m)
    → (cs : List ℕ) → inline_all inline_call cs m ≡ m
unfolding inline_all
inline_all-id inline_call m fails [] = refl
inline_all-id inline_call m fails (c ∷ cs) = rw (fails c) (inline_all-id inline_call m fails cs)

-- A function with a body that stands in a module after an inlining stood there before it.
Untouched-defined :
    (m m' : Module) (k : String) (g : Function)
    → Untouched m m' k
    → get_function k m' ≡ some g
    → is_declaration g ≡ false
    → get_function k m ≡ some g
Untouched-defined m m' k g (inl e) found body = sym e ∙ found
Untouched-defined m m' k g (inr (h, intrinsic, before, after, bare)) found body =
    let both : some h ≡ some g = sym after ∙ found in absurd (ground (arith, both, bare, body))

Untouched-keeps :
    (m m' : Module) (k : String) (g : Function)
    → Untouched m m' k
    → get_function k m ≡ some g
    → get_function k m' ≡ some g
Untouched-keeps m m' k g (inl e) found = e ∙ found
Untouched-keeps m m' k g (inr (h, intrinsic, before, after, bare)) found =
    absurd (ground (arith, before, found))

module _ {inline_call : Module → ℕ → Module} {succeeds : Module → ℕ → Bool} {name : String}
    (lib : Inlines name succeeds inline_call) (w : String → ℕ)
    (success : (m : Module) (f : Function) (c : ℕ)
      → Ready w name m f
      → Pending m f c
      → succeeds m c ≡ true) where
  Selected-ne :
      {m : Module} {f : Function} {i : Inst}
      → Ready w name m f
      → (s : Selected m i) → s.callee ≢ name
  Selected-ne {m} {f} r s e =
      let both : some f ≡ some s.target =
        sym r.got ∙ ap (λ (k : String). get_function k m) (sym e) ∙ s.found in
      absurd (ground (arith, both, r.unmarked, s.marked))

  -- Only the callee counts.
  Selected-same :
      {m : Module} (i j : Inst)
      → (s : Selected m i) → called_function j ≡ some s.callee
      → Selected m j
  Selected-same i j s called = record {
    callee = s.callee;
    target = s.target;
    direct = called;
    found = s.found;
    marked = s.marked;
    defined = s.defined;
  }

  Selected-inline :
      {m : Module} {f : Function} {i : Inst} (c : ℕ)
      → Ready w name m f
      → Selected m i
      → Selected (inline_call m c) i
  Selected-inline {m} c r s = record {
    callee = s.callee;
    target = s.target;
    direct = s.direct;
    found =
        Untouched-keeps m (inline_call m c) s.callee s.target
          (lib.elsewhere m c s.callee (Selected-ne r s)) s.found;
    marked = s.marked;
    defined = s.defined;
  }

  -- One call of `InlineFunction` lowers the weight, and leaves the other collected calls pending.
  inline-step :
      {m : Module} {f : Function} (c : ℕ)
      → Ready w name m f
      → Pending m f c
      → (f' : Function) × Ready w name (inline_call m c) f'
        × (weight w f' < weight w f)
        × ((d : ℕ) → d ≢ c → Pending m f d → Pending (inline_call m c) f' d)
  inline-step {m} {f} c r (i, at, sel) =
      let s = Selected-of m i sel in
      let named : s.target.name ≡ s.callee = get_function-name s.callee m s.target s.found in
      let ne : s.callee ≢ name = Selected-ne r s in
      let (lighter, direct) = r.ranked s.target s.callee ne s.found s.marked s.defined in
      let (f', got, inl_) =
        lib.replaces m c f s.target i (success m f c r (i, at, sel)) r.got at (rw named s.direct)
          (rw named ne) (rw named s.found) s.defined r.direct direct in
      (
        f',
        record {
          got = got;
          unmarked = inl_.always_inline ∙ r.unmarked;
          distinct = inl_.distinct r.distinct;
          direct = inl_.direct;
          light = r.light;
          ranked = λ g k k_ne found mark body.
              r.ranked g k k_ne
                (Untouched-defined m (inline_call m c) k g (lib.elsewhere m c k k_ne) found body)
                mark body;
        },
        omega (arith, inl_.weights w r.light, ap w named),
        λ d d_ne (j, j_at, j_sel).
            let t = Selected-of m j j_sel in
            let (j', j'_at, called) = inl_.others d j t.callee d_ne j_at t.direct in
            (j', j'_at, selected_of _ j' (Selected-inline c r (Selected-same j j' t called))),
      )

  inline_all-Ready :
      (cs : List ℕ) (m : Module) (f : Function)
      → DistinctIds cs
      → Ready w name m f
      → ((c : ℕ) → member c cs ≡ true → Pending m f c)
      → (f' : Function) × Ready w name (inline_all inline_call cs m) f'
        × (weight w f' + length cs ≤ weight w f)
  unfolding inline_all
  inline_all-Ready [] m f d r p = (f, r, omega arith)
  inline_all-Ready (c ∷ cs) m f d r p =
      let (f₁, r₁, less, keeps) = inline-step c r (p c (ground arith)) in
      let (f₂, r₂, rest) =
        inline_all-Ready cs (inline_call m c) f₁ d.1 r₁
          (λ b b_in. keeps b (λ e. ground (arith, d.0)) (p b (ground arith))) in
      (f₂, r₂, omega arith)

  module _ {arrange : List ℕ → List ℕ} (order : Arranges arrange) where
    -- A round that collects some call lowers the weight.
    round :
        {m : Module} {f : Function} (c : ℕ) (cs : List ℕ)
        → Ready w name m f
        → collect name m ≡ c ∷ cs
        → (f' : Function) × Ready w name (inline_all inline_call (arrange (c ∷ cs)) m) f'
          × (weight w f' < weight w f)
    unfolding collect
    round {m} {f} c cs r e =
        let all_calls : ids_where (selected m) (instructions f) ≡ c ∷ cs =
          rw (r.got, collect) at e in
        let distinct : DistinctIds (c ∷ cs) =
          rw all_calls at (ids_where-DistinctIds (selected m) (instructions f) r.distinct) in
        let (f', r', less) =
          inline_all-Ready (arrange (c ∷ cs)) m f (order.distinct (c ∷ cs) distinct) r (λ b b_in.
            ids_where-find (selected m) (instructions f) b r.distinct
              (rw all_calls (order.within b (c ∷ cs) b_in))) in
        (f', r', omega (arith, order.size (c ∷ cs)))

    rounds :
        (fuel : ℕ) (m : Module) (f : Function)
        → Ready w name m f
        → weight w f < fuel
        → (m' : Module) × (inline_functions inline_call arrange name fuel m ≡ some m')
          × (collect name m' ≡ [])
    unfolding inline_functions
    rounds zero m f r h = absurd (omega arith)
    rounds (suc fuel) m f r h = elim (List-cases (collect name m)) [
      | inl e ↦ (m, rw (e, inline_functions), e)
      | inr (c, cs, e) ↦
          let (f', r', less) = round c cs r e in
          rw (e, inline_functions)
            (rounds fuel (inline_all inline_call (arrange (c ∷ cs)) m) f' r' (omega arith))
    ]

-- Where `InlineFunction` fails on every call that is collected, and so changes nothing, the loop
-- never ends: each round collects the same calls and counts them as a change.
pub inline_functions-stuck :
    (inline_call : Module → ℕ → Module) (arrange : List ℕ → List ℕ) (name : String) (m : Module)
    → ((c : ℕ) → inline_call m c ≡ m)
    → collect name m ≢ []
    → (fuel : ℕ) → inline_functions inline_call arrange name fuel m ≡ none
unfolding inline_functions
inline_functions-stuck inline_call arrange name m fails some_call zero = refl
inline_functions-stuck inline_call arrange name m fails some_call (suc fuel) =
    elim (List-cases (collect name m)) [
      | inl e ↦ absurd (some_call e)
      | inr (c, cs, e) ↦
          rw (e, inline_functions, unchanged (arrange (c ∷ cs)))
            (inline_functions-stuck inline_call arrange name m fails some_call fuel)
    ]
  where
    unchanged : (ds : List ℕ) → inline_all inline_call ds m ≡ m
    unchanged ds = inline_all-id inline_call m fails ds
