-- ===== src/Deobfuscator/AlwaysInline/Loads.antt =====
-- Which of newer wasm2c's load functions `setFunctionsAlwayInline` of src/Deobfuscator.cpp reaches.
use Prim.Native.String.{◌++◌ as append}
use Prim.Native.Char.{Char, code}
use text.Mathlib.TextLemmas.{head-eq_of_cons-eq, cons-append}
use mathlib.Core.Option
use squanchy.Base.{
  ◌≡◌, ◌≢◌, ℕ, refl, sym, ap, ◌∙◌, String, Bool, true, false, ◌||◌, Option, none, some, inl, inr,
  arith, same, same_iff, has_name, Bool-cases,
}
use squanchy.Deobfuscator.{Deobfuscator}
use squanchy.Deobfuscator.AlwaysInline.Names.{
  instantiate_name, inlined_names, set_functions_always_inline,
}
use squanchy.Deobfuscator.AlwaysInline.Laws.{attribute, attribute-set_functions}

differs : (s : String) → append "wasm2c_" s ≢ "i16_load_unchecked"
differs s e =
    let heads : ◌≡◌ {A = Char} "w" "i" =
      head-eq_of_cons-eq {xs = append "asm2c_" s} {ys = "16_load_unchecked"}
        (sym (cons-append "w" "asm2c_" s) ∙ e) in
    let codes : ◌≡◌ {A = ℕ} 119 105 = ap code heads in absurd (omega arith)

has_name-i16 : (s : String) → has_name "i16_load_unchecked" (inlined_names s) ≡ false
unfolding inlined_names
has_name-i16 s = elim (Bool-cases (same (instantiate_name s) "i16_load_unchecked")) [
  | inl h ↦ absurd (differs (append s "_instantiate") ((same_iff _ _).0 h))
  | inr h ↦ rw h
]

has_name-i32 : (s : String) → has_name "i32_load_unchecked" (inlined_names s) ≡ true
unfolding inlined_names
has_name-i32 s = elim (Bool-cases (same (instantiate_name s) "i32_load_unchecked")) [
  | inl h ↦ rw h
  | inr h ↦ rw h
]

map-or_false : (o : Option Bool) → Option.map (λ (b : Bool). b || false) o ≡ o
map-or_false none = refl
map-or_false (some true) = refl
map-or_false (some false) = refl

map-or_true :
    (o : Option Bool) → Option.map (λ (b : Bool). b || true) o ≡ Option.map (λ (b : Bool). true) o
map-or_true none = refl
map-or_true (some true) = refl
map-or_true (some false) = refl

-- The 16-bit unchecked load of newer wasm2c output keeps the attribute that it had, while the
-- 32-bit one becomes always inlined if the module has it.
pub i16_load_unchecked-unmarked :
    (module_name : String) (d : Deobfuscator)
    → (attribute "i16_load_unchecked" (set_functions_always_inline module_name d).ir
        ≡ attribute "i16_load_unchecked" d.ir)
      × (attribute "i32_load_unchecked" (set_functions_always_inline module_name d).ir
          ≡ Option.map (λ (b : Bool). true) (attribute "i32_load_unchecked" d.ir))
i16_load_unchecked-unmarked module_name d = (
  attribute-set_functions module_name "i16_load_unchecked" d
      ∙ rw (has_name-i16 module_name) (map-or_false _),
  attribute-set_functions module_name "i32_load_unchecked" d
      ∙ rw (has_name-i32 module_name) (map-or_true _),
)
