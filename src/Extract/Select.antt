-- ===== src/Extract/Select.antt =====
-- The options of `LLVMExtract` and its body, src/LLVMExtract.cpp. LLVM's part is a record of
-- functions that the definitions take.
pub mod Lookup
pub mod Laws
use squanchy.Base.{
  ℕ, suc, ◌+◌, String, Bool, true, false, Option, none, some, List, [], ◌∷◌, ◌++◌, if◌then◌else◌,
  any, has_name, not, length, map,
}
use squanchy.Ir.{Function, Global, Module, get_function}
use squanchy.Deobfuscator.{Outcome, done, out_of_fuel, ◌>>=◌}
use squanchy.Extract.{Gv, alias, variable, function, insert_gv}
use squanchy.Extract.Recursive.{extend}

-- What LLVM does: `Regex::match`, the two splits of a block option, the block of a name, and the
-- passes. `clean_up` is told whether `GlobalDCEPass` runs before the two strip passes.
pub record ExtractLlvm : Type 0 where
  pub matches : String → String → Bool
  pub split_block : String → String × List String
  pub find_block : Function → String → Option ℕ
  pub extract_gv : List Gv → (delete_fn keep_const_init : Bool) → Module → Module
  pub extract_blocks : List (List (String × ℕ)) → Module → Module
  pub clean_up : (global_dce : Bool) → Module → Module

-- The `cl::opt`s of the file.
pub record ExtractOptions : Type 0 where
  pub delete_fn : Bool
  pub keep_const_init : Bool
  pub extract_reg_exp_funcs : List String
  pub extract_blocks : List String
  pub extract_aliases : List String
  pub extract_reg_exp_aliases : List String
  pub extract_globals : List String

-- The loops over names: the first name that is not in the module ends the extraction.
unfoldable pub add_named :
    (String → Bool) → (String → Gv) → List String → List Gv → Option (List Gv)
add_named has gv [] gs = some gs
add_named has gv (n ∷ ns) gs = if has n then add_named has gv ns (insert_gv (gv n) gs) else none

-- The inner loop over the module's symbols for one regular expression.
unfoldable pub insert_matching : (String → Bool) → (String → Gv) → List String → List Gv → List Gv
insert_matching test gv [] gs = gs
insert_matching test gv (n ∷ ns) gs =
    insert_matching test gv ns (if test n then insert_gv (gv n) gs else gs)

-- The loops over regular expressions, by the symbols that they are tried on. An invalid one is
-- reported and tried all the same; one without a match ends the extraction.
unfoldable pub add_matching :
    (String → String → Bool)
    → (String → Gv)
    → List String
    → List String
    → List Gv
    → Option (List Gv)
add_matching matches gv symbols [] gs = some gs
add_matching matches gv symbols (r ∷ rs) gs =
    if any (matches r) symbols
    then add_matching matches gv symbols rs (insert_matching (matches r) gv symbols gs)
    else none

abbrev pub function_names : Module → List String
function_names m = map (λ (f : Function). f.name) m.functions

abbrev pub global_names : Module → List String
global_names m = map (λ (g : Global). g.name) m.globals

abbrev pub bind {ℓ κ} : {A : Type ℓ} {B : Type κ} → Option A → (A → Option B) → Option B
bind none k = none
bind (some a) k = k a

-- The aliases and the variables; `none` is `return 1`.
unfoldable pub select_variables :
    ExtractLlvm
    → ExtractOptions
    → (extract_reg_exp_globals : List String) → Module
    → Option (List Gv)
select_variables llvm opts globals m =
    bind (add_named (λ n. has_name n m.aliases) alias opts.extract_aliases []) (λ g1.
      bind (add_matching llvm.matches alias m.aliases opts.extract_reg_exp_aliases g1) (λ g2.
        bind (add_named (λ n. has_name n (global_names m)) variable opts.extract_globals g2)
          (λ g3. add_matching llvm.matches variable (global_names m) globals g3)))

abbrev pub has_function : Module → String → Bool
has_function m n = has_name n (function_names m)

unfoldable pub select_blocks : ExtractLlvm → ExtractOptions → Module → List Gv → Option (List Gv)
select_blocks llvm opts m gs =
    add_named (has_function m) function
      (map (λ (b : String). (llvm.split_block b).0) opts.extract_blocks) gs

unfoldable pub select_regexp : ExtractLlvm → ExtractOptions → Module → List Gv → Option (List Gv)
select_regexp llvm opts m gs =
    bind (add_matching llvm.matches function (function_names m) opts.extract_reg_exp_funcs gs)
      (select_blocks llvm opts m)

unfoldable pub select_functions :
    ExtractLlvm
    → ExtractOptions
    → (extract_funcs : List String) → Module
    → List Gv
    → Option (List Gv)
select_functions llvm opts funcs m gs =
    bind (add_named (has_function m) function funcs gs) (select_regexp llvm opts m)

-- From the aliases to the blocks; `none` is `return 1`.
unfoldable pub select :
    ExtractLlvm
    → ExtractOptions
    → (extract_funcs extract_reg_exp_globals : List String) → Module
    → Option (List Gv)
select llvm opts funcs globals m =
    bind (select_variables llvm opts globals m) (select_functions llvm opts funcs m)

-- The blocks of one function by their names, in the module after the first pass, which drops bodies
-- and keeps the functions.
unfoldable pub blocks_of : ExtractLlvm → Function → List String → Option (List (String × ℕ))
blocks_of llvm f [] = some []
blocks_of llvm f (b ∷ bs) =
    bind (llvm.find_block f b) (λ k. bind (blocks_of llvm f bs) (λ ks. some ((f.name, k) ∷ ks)))

unfoldable pub group_blocks :
    ExtractLlvm → Module → List (String × List String) → Option (List (List (String × ℕ)))
group_blocks llvm m [] = some []
group_blocks llvm m ((n, bs) ∷ rest) =
    bind (get_function n m) (λ f.
      bind (blocks_of llvm f bs) (λ ks. bind (group_blocks llvm m rest) (λ gs. some (ks ∷ gs))))

-- From the first pass to the end: the module and the value that is returned.
unfoldable pub run_extraction : ExtractLlvm → ExtractOptions → List Gv → Module → Module × ℕ
run_extraction llvm opts gs m =
    let m' = llvm.extract_gv gs opts.delete_fn opts.keep_const_init m in
    elim opts.extract_blocks [
      | [] ↦ (llvm.clean_up (not opts.delete_fn) m', 0)
      | _ ∷ _ ↦ elim (group_blocks llvm m' (map llvm.split_block opts.extract_blocks)) [
        | none ↦ (m', 1)
        | some groups ↦ (llvm.clean_up (not opts.delete_fn) (llvm.extract_blocks groups m'), 0)
      ]
    ]

unfoldable pub llvm_extract :
    ExtractLlvm
    → ExtractOptions
    → (extract_funcs extract_reg_exp_globals : List String) → (recursive : Bool) → Module
    → Outcome (Module × ℕ)
llvm_extract llvm opts funcs globals recursive m = elim (select llvm opts funcs globals m) [
  | none ↦ done (m, 1)
  | some gs ↦
      if recursive
      then elim (extend m (suc (length m.functions + length gs)) gs) [
        | none ↦ out_of_fuel
        | some all_gvs ↦ done (run_extraction llvm opts all_gvs m)
      ]
      else done (run_extraction llvm opts gs m)
]
