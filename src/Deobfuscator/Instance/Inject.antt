-- ===== src/Deobfuscator/Instance/Inject.antt =====
-- What `injectInitializer` of src/Deobfuscator.cpp builds, and when it does not return.
use Prim.Native.String.{◌++◌ as append}
use squanchy.Base.{
  ℕ, ◌≡◌, ◌≢◌, refl, String, Bool, true, false, none, some, List, [], ◌∷◌, ◌++◌, ◌==◌, map, any,
  has_name, arith, inl, inr, Bool-cases, Option-cases, List-cases,
}
use squanchy.Ir.{Value, Ty, Inst, Function, Module, get_function, edit_insts}
use squanchy.Deobfuscator.{>>=-eq-done, done}
use squanchy.Deobfuscator.Instance.{
  fresh, replace_value, replace_arg, env_type, new_insts, inject_into, inject_initializer,
}

abbrev pub is_arg0 : Value → Bool
is_arg0 (Value.arg k) = k == 0
is_arg0 (Value.inst _) = false
is_arg0 (Value.func _) = false
is_arg0 (Value.global _) = false
is_arg0 (Value.gep _ _) = false
is_arg0 Value.inline_asm = false
is_arg0 (Value.other _) = false

abbrev pub uses_arg0 : Inst → Bool
uses_arg0 i = any is_arg0 i.operands

any-replace_value : (k : ℕ) (vs : List Value) → any is_arg0 (map (replace_value k) vs) ≡ false
any-replace_value k [] = refl
any-replace_value k (v ∷ vs) = ground (arith, any-replace_value k vs)

replaced : (k : ℕ) (is : List Inst) → any uses_arg0 (map (replace_arg k) is) ≡ false
unfolding replace_arg
replaced k [] = refl
replaced k (i ∷ is) = ground (arith, any-replace_value k i.operands, replaced k is)

abbrev pub injected : String → Function → Ty → List Inst → List (List Inst) → Function
injected module_name f ty entry others = edit_insts (replace_arg (fresh f)) (record f {
  blocks =
      (new_insts (fresh f) (Ty.struct (append "struct.w2c_" module_name)) ty ++ entry) ∷ others;
})

inject_into-done :
    (module_name : String) (m : Module) (f f' : Function) (entry : List Inst)
    (others : List (List Inst))
    → inject_into module_name m f entry others ≡ done f'
    → (ty : Ty) × (g : Function) × (env_type m ≡ done ty)
      × (get_function "wasm2c_squanchy_instantiate" m ≡ some g)
      × (f' ≡ injected module_name f ty entry others)
unfolding inject_into
inject_into-done module_name m f f' entry others h =
    elim (Bool-cases (has_name (append "struct.w2c_" module_name) m.structs)) [
      | inr lacks ↦ absurd (ground (arith, lacks))
      | inl has ↦
          let (ty, e, rest) = >>=-eq-done (env_type m) _ f' (rw has at h) in
          elim (Option-cases (get_function "wasm2c_squanchy_instantiate" m)) [
            | inl null ↦ absurd (ground (arith, null))
            | inr (g, init) ↦ (ty, g, e, init, ground (arith, init))
          ]
    ]

reaches :
    (module_name : String) (m : Module) (f f' : Function)
    → inject_initializer module_name m f ≡ done f'
    → (i : Inst) × (is : List Inst) × (bs : List (List Inst)) × (f.blocks ≡ (i ∷ is) ∷ bs)
      × (inject_into module_name m f (i ∷ is) bs ≡ done f')
unfolding inject_initializer
reaches module_name m f f' h = elim (List-cases f.blocks) [
  | inl e ↦ absurd (ground (arith, e))
  | inr (b, bs, e) ↦ elim (List-cases b) [
    | inl e' ↦ absurd (ground (arith, e, e'))
    | inr (i, is, e') ↦ (i, is, bs, ground (arith, e, e'), ground (arith, e, e'))
  ]
]

-- The pass returns where the function has a first instruction and an argument, and the module has
-- the instance's struct, a type for the environment and the initializer.
pub inject_initializer-total :
    (module_name : String) (m : Module) (f : Function) (i : Inst) (is : List Inst)
    (bs : List (List Inst)) (ty : Ty) (g : Function)
    → f.blocks ≡ (i ∷ is) ∷ bs
    → f.arg_size ≢ 0
    → has_name (append "struct.w2c_" module_name) m.structs ≡ true
    → env_type m ≡ done ty
    → get_function "wasm2c_squanchy_instantiate" m ≡ some g
    → inject_initializer module_name m f ≡ done (injected module_name f ty (i ∷ is) bs)
unfolding inject_initializer
inject_initializer-total module_name m f i is bs ty g blocks args struct_ env init = ground arith

-- Whatever the module name option says, the initializer is looked up as
-- `wasm2c_squanchy_instantiate`: without a function of that name the pass does not return.
pub inject_initializer-needs_squanchy :
    (module_name : String) (m : Module) (f f' : Function)
    → get_function "wasm2c_squanchy_instantiate" m ≡ none
    → inject_initializer module_name m f ≢ done f'
inject_initializer-needs_squanchy module_name m f f' h e =
    let (i, is, bs, e', into) = reaches module_name m f f' e in
    let (ty, g, env, init, built) = inject_into-done module_name m f f' (i ∷ is) bs into in
    ground (arith, h, init)
