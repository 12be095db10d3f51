-- ===== src/Ir/Functions.antt =====
-- Looking a function up by its name and replacing it: the laws of the module's symbol table.
use squanchy.Base.{
  ◌≡◌, refl, sym, ap, ◌∙◌, inl, inr, Bool-cases, String, none, some, List, [], ◌∷◌, map, arith,
  if◌then◌else◌, flatten, find, same, same_iff,
}
use mathlib.Core.List.{map-append}
use squanchy.Ir.{
  Inst, instructions, edit_insts, Function, Module, get_function, edit_named, edit_function,
  edit_functions,
}
use mathlib.Core.Option

-- The edits keep the symbol that they are found by.
abbrev pub KeepsName : (Function → Function) → Type 0
KeepsName edit = (f : Function) → (edit f).name ≡ f.name

find-edit_named :
    (n k : String) (edit : Function → Function)
    → KeepsName edit
    → (fs : List Function)
    → find (λ f. same f.name k) (edit_named n edit fs) ≡ elim (find (λ f. same f.name k) fs) [
      | none ↦ none
      | some f ↦ some (if same f.name n then edit f else f)
    ]
find-edit_named n k edit keeps [] = refl
find-edit_named n k edit keeps (f ∷ fs) = ground (arith, keeps f, find-edit_named n k edit keeps fs)

-- An edit shows at its own name, and nowhere else.
pub get_function-edit_function :
    (n k : String) (edit : Function → Function) (m : Module)
    → KeepsName edit
    → get_function k (edit_function n edit m) ≡ elim (get_function k m) [
      | none ↦ none
      | some f ↦ some (if same f.name n then edit f else f)
    ]
unfolding get_function edit_function
get_function-edit_function n k edit m keeps = find-edit_named n k edit keeps m.functions

find-map :
    (k : String) (edit : Function → Function)
    → KeepsName edit
    → (fs : List Function)
    → find (λ f. same f.name k) (map edit fs) ≡ Option.map edit (find (λ f. same f.name k) fs)
find-map k edit keeps [] = refl
find-map k edit keeps (f ∷ fs) = ground (arith, keeps f, find-map k edit keeps fs)

-- An edit of every function shows at every name.
pub get_function-edit_functions :
    (k : String) (edit : Function → Function) (m : Module)
    → KeepsName edit
    → get_function k (edit_functions edit m) ≡ Option.map edit (get_function k m)
unfolding get_function edit_functions
get_function-edit_functions k edit m keeps = find-map k edit keeps m.functions

find-name :
    (n : String) (fs : List Function) (f : Function)
    → find (λ g. same g.name n) fs ≡ some f
    → f.name ≡ n
find-name n [] f h = cc
find-name n (g ∷ fs) f h = elim (Bool-cases (same g.name n)) [
  | inl hit ↦
      let e : g ≡ f = (let h' : some g ≡ some f = (rw hit at h) in cc) in
      ap (λ (x : Function). x.name) (sym e) ∙ (same_iff g.name n).0 hit
  | inr miss ↦ find-name n fs f (rw miss at h)
]

pub get_function-name :
    (n : String) (m : Module) (f : Function) → get_function n m ≡ some f → f.name ≡ n
unfolding get_function
get_function-name n m f h = find-name n m.functions f h

flatten-map :
    (edit : Inst → Inst) (bs : List (List Inst))
    → flatten (map (map edit) bs) ≡ map edit (flatten bs)
flatten-map edit [] = refl
flatten-map edit (b ∷ bs) = rw (flatten-map edit bs, map-append edit b (flatten bs))

-- An edit of every instruction, seen along the instruction iterator.
pub instructions-edit_insts :
    (edit : Inst → Inst) (f : Function)
    → instructions (edit_insts edit f) ≡ map edit (instructions f)
instructions-edit_insts edit f = flatten-map edit f.blocks
