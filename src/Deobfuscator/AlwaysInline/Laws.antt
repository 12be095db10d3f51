-- ===== src/Deobfuscator/AlwaysInline/Laws.antt =====
-- What the always-inline passes of src/Deobfuscator.cpp do to the attributes and to the record of
-- marked names.
use mathlib.Core.Option
use squanchy.Base.{
  ◌≡◌, refl, ◌∙◌, String, Bool, true, false, ◌||◌, ◌&&◌, not, Option, none, some, List, [], ◌∷◌,
  inl, inr, arith, same, same_iff, same_refl, same_comm, has_name, has_name-append, Bool-cases,
  Option-cases,
}
use squanchy.Ir.{Function, Module, get_function, edit_function, edit_insts}
use squanchy.Ir.Functions.{
  get_function-edit_function, get_function-edit_functions, get_function-name,
}
use squanchy.Deobfuscator.{Deobfuscator}
use squanchy.Deobfuscator.AlwaysInline.{
  add_attribute, mark_call, mark_users, set_pointer, set_function_always_inline, set_all,
}
use squanchy.Deobfuscator.AlwaysInline.Names.{inlined_names, set_functions_always_inline}

-- Whether the function named `k` is always inlined; `none` if the module has no such function.
abbrev pub attribute : String → Module → Option Bool
attribute k m = Option.map (λ (f : Function). f.always_inline) (get_function k m)

attribute-mark :
    (n k : String) (m : Module)
    → attribute k (mark_users n (edit_function n add_attribute m))
      ≡ Option.map (λ (b : Bool). b || same n k) (attribute k m)
unfolding mark_users add_attribute
attribute-mark n k m = elim (Option-cases (get_function k m)) [
  | inl e ↦ ground (
    arith,
    e,
    get_function-edit_functions k (edit_insts (mark_call n)) (edit_function n add_attribute m)
        (λ f. refl),
    get_function-edit_function n k add_attribute m (λ f. refl),
  )
  | inr (f, e) ↦ ground (
    arith,
    e,
    get_function-name k m f e,
    same_comm n k,
    get_function-edit_functions k (edit_insts (mark_call n)) (edit_function n add_attribute m)
        (λ f. refl),
    get_function-edit_function n k add_attribute m (λ f. refl),
  )
]

-- One call of `setFunctionAlwayInline` sets the attribute of the function that it names.
attribute-set :
    (n k : String) (d : Deobfuscator)
    → attribute k (set_function_always_inline n d).ir
      ≡ Option.map (λ (b : Bool). b || same n k) (attribute k d.ir)
unfolding set_function_always_inline set_pointer
attribute-set n k d = elim (Option-cases (get_function n d.ir)) [
  | inl e ↦ ground (arith, e, same_iff n k)
  | inr (f, e) ↦ elim (Bool-cases f.always_inline) [
    | inl old ↦ ground (arith, e, old, same_iff n k)
    | inr new ↦
        let named : f.name ≡ n = get_function-name n d.ir f e in
        rw (e, new) (attribute-mark f.name k d.ir ∙ ground (arith, named))
  ]
]

attribute-set_all :
    (ns : List String) (k : String) (d : Deobfuscator)
    → attribute k (set_all ns d).ir
      ≡ Option.map (λ (b : Bool). b || has_name k ns) (attribute k d.ir)
unfolding set_all
attribute-set_all [] k d = ground arith
attribute-set_all (n ∷ ns) k d =
    ground (arith, attribute-set_all ns k (set_function_always_inline n d), attribute-set n k d)

-- The whole pass: a function is always inlined afterwards exactly if it was before or its name is
-- one of the listed ones; no function appears or vanishes.
pub attribute-set_functions :
    (module_name k : String) (d : Deobfuscator)
    → attribute k (set_functions_always_inline module_name d).ir
      ≡ Option.map (λ (b : Bool). b || has_name k (inlined_names module_name)) (attribute k d.ir)
unfolding set_functions_always_inline
attribute-set_functions module_name k d = attribute-set_all (inlined_names module_name) k d

-- What one call appends to the record of marked names.
unfoldable pub newly : Option Bool → Bool
newly none = false
newly (some b) = not b

names-set :
    (n k : String) (d : Deobfuscator)
    → has_name k (set_function_always_inline n d).ai_function_names
      ≡ (has_name k d.ai_function_names || (same n k && newly (attribute k d.ir)))
unfolding set_function_always_inline set_pointer newly
names-set n k d = elim (Option-cases (get_function n d.ir)) [
  | inl e ↦ ground (arith, e, same_iff n k)
  | inr (f, e) ↦ elim (Bool-cases f.always_inline) [
    | inl old ↦ ground (arith, e, old, same_iff n k)
    | inr new ↦
        let named : f.name ≡ n = get_function-name n d.ir f e in
        rw (e, new)
          (ground (
            arith,
            named,
            e,
            new,
            same_iff n k,
            has_name-append k d.ai_function_names (f.name ∷ []),
          ))
  ]
]

names-set_all :
    (ns : List String) (k : String) (d : Deobfuscator)
    → has_name k (set_all ns d).ai_function_names
      ≡ (has_name k d.ai_function_names || (has_name k ns && newly (attribute k d.ir)))
unfolding set_all newly
names-set_all [] k d = ground arith
names-set_all (n ∷ ns) k d = ground (
  arith,
  names-set_all ns k (set_function_always_inline n d),
  names-set n k d,
  attribute-set n k d,
)

-- The pass records exactly the listed names whose function was there and not yet marked.
pub names-set_functions :
    (module_name k : String) (d : Deobfuscator)
    → has_name k (set_functions_always_inline module_name d).ai_function_names ≡ (
        has_name k d.ai_function_names
        || (has_name k (inlined_names module_name) && newly (attribute k d.ir)))
unfolding set_functions_always_inline
names-set_functions module_name k d = names-set_all (inlined_names module_name) k d

set-id :
    (n : String) (d : Deobfuscator)
    → newly (attribute n d.ir) ≡ false
    → set_function_always_inline n d ≡ d
unfolding set_function_always_inline set_pointer newly
set-id n d h = elim (Option-cases (get_function n d.ir)) [
  | inl e ↦ ground (arith, e)
  | inr (f, e) ↦ elim (Bool-cases f.always_inline) [
    | inl old ↦ ground (arith, e, old)
    | inr new ↦ absurd (ground (arith, e, new))
  ]
]

set_all-id :
    (ns : List String) (d : Deobfuscator)
    → ((k : String) → has_name k ns ≡ true → newly (attribute k d.ir) ≡ false)
    → set_all ns d ≡ d
unfolding set_all
set_all-id [] d h = refl
set_all-id (n ∷ ns) d h =
    rw (set-id n d (h n (ground (arith, same_refl n))))
      (set_all-id ns d (λ k m. h k (ground arith)))

-- Running the pass twice is running it once: `deobfuscateFunction` runs it for every function.
pub set_functions_idem :
    (module_name : String) (d : Deobfuscator)
    → set_functions_always_inline module_name (set_functions_always_inline module_name d)
      ≡ set_functions_always_inline module_name d
unfolding set_functions_always_inline newly
set_functions_idem module_name d =
    set_all-id (inlined_names module_name) (set_all (inlined_names module_name) d)
      λ k m. ground (arith, attribute-set_all (inlined_names module_name) k d)
