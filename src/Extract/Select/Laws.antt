-- ===== src/Extract/Select/Laws.antt =====
-- What `LLVMExtract`, src/LLVMExtract.cpp, returns.
use squanchy.Base.{
  ℕ, suc, ◌+◌, String, Bool, true, false, Option, none, some, List, [], ◌∷◌, ◌≡◌, refl, sym, ap,
  ◌∙◌, arith, inl, inr, all, map, length, has_name, same, same_iff, Bool-cases, Option-cases,
}
use squanchy.Ir.{Module}
use squanchy.Deobfuscator.{done}
use squanchy.Extract.{Gv, function, has_gv}
use squanchy.Extract.Recursive.Measure.{extend-ends}
use squanchy.Extract.Select.{
  ExtractLlvm, ExtractOptions, add_named, add_matching, bind, function_names, select,
  select_variables, has_function, select_blocks, select_regexp, select_functions, run_extraction,
  llvm_extract,
}
use squanchy.Extract.Select.Lookup.{add_named-some, add_named-has, add_matching-grows}

bind-some {ℓ κ} :
    {A : Type ℓ} {B : Type κ} (o : Option A) (k : A → Option B) (b : B)
    → bind o k ≡ some b
    → (a : A) × (o ≡ some a) × (k a ≡ some b)
bind-some none k b h = absurd (cc)
bind-some (some a) k b h = (a, refl, h)

has_name-all :
    (n : String) (ns : List String) (has : String → Bool)
    → has_name n ns ≡ true
    → all has ns ≡ true
    → has n ≡ true
has_name-all n [] has h every = absurd (cc)
has_name-all n (m ∷ ns) has h every = elim (Bool-cases (same m n)) [
  | inl e ↦ ap has (sym ((same_iff m n).0 e)) ∙ ground (arith, every)
  | inr e ↦ has_name-all n ns has (ground (arith, e, h)) (ground (arith, every))
]

has_gv-map : (n : String) (ns : List String) → has_gv (function n) (map function ns) ≡ has_name n ns
has_gv-map n [] = refl
has_gv-map n (m ∷ ns) = ground (arith, has_gv-map n ns)

-- When the selection gives a set, every function that was asked for is in the set and in the module.
pub select-functions :
    (llvm : ExtractLlvm) (opts : ExtractOptions) (funcs globals : List String) (m : Module)
    (gs : List Gv) (n : String)
    → select llvm opts funcs globals m ≡ some gs
    → has_name n funcs ≡ true
    → (has_gv (function n) gs ≡ true) × (has_name n (function_names m) ≡ true)
unfolding select select_functions select_regexp select_blocks
select-functions llvm opts funcs globals m gs n h asked =
    let (g4, h4, k4) =
      bind-some (select_variables llvm opts globals m) (select_functions llvm opts funcs m) gs h in
    let (g5, h5, k5) =
      bind-some (add_named (has_function m) function funcs g4) (select_regexp llvm opts m) gs k4 in
    let (g6, h6, k6) =
      bind-some
        (add_matching llvm.matches function (function_names m) opts.extract_reg_exp_funcs g5)
        (select_blocks llvm opts m) gs k5 in
    let in5 : has_gv (function n) g5 ≡ true = ground (
      arith,
      add_named-has (has_function m) function funcs g4 g5 (function n) h5,
      has_gv-map n funcs,
      asked,
    ) in
    let in6 : has_gv (function n) g6 ≡ true =
      add_matching-grows llvm.matches function (function_names m) opts.extract_reg_exp_funcs g5 g6
        (function n) h6 in5 in
    (
      ground (
        arith,
        in6,
        add_named-has (has_function m) function
            (map (λ (b : String). (llvm.split_block b).0) opts.extract_blocks) g6 gs (function n)
            k6,
      ),
      has_name-all n funcs (has_function m) asked
          (add_named-some (has_function m) function funcs g4 g5 h5),
    )

-- The extraction returns for every module and every list of names and expressions.
pub llvm_extract-total :
    (llvm : ExtractLlvm) (opts : ExtractOptions) (funcs globals : List String) (recursive : Bool)
    (m : Module)
    → (r : Module × ℕ) × (llvm_extract llvm opts funcs globals recursive m ≡ done r)
unfolding llvm_extract
llvm_extract-total llvm opts funcs globals recursive m =
    elim (Option-cases (select llvm opts funcs globals m)) [
      | inl e ↦ ((m, 1), ground (arith, e))
      | inr (gs, e) ↦ elim (Bool-cases recursive) [
        | inr r ↦ (run_extraction llvm opts gs m, ground (arith, e, r))
        | inl r ↦
            let (out, d) = extend-ends m (suc (length m.functions + length gs)) gs (omega arith) in
            (run_extraction llvm opts out m, ground (arith, e, r, d))
      ]
    ]

-- A function that was asked for and that the module lacks makes the extraction return 1, and the
-- module is as it was.
pub llvm_extract-missing :
    (llvm : ExtractLlvm) (opts : ExtractOptions) (funcs globals : List String) (recursive : Bool)
    (m : Module) (n : String)
    → has_name n funcs ≡ true
    → has_name n (function_names m) ≡ false
    → llvm_extract llvm opts funcs globals recursive m ≡ done (m, 1)
unfolding llvm_extract
llvm_extract-missing llvm opts funcs globals recursive m n asked lacks =
    elim (Option-cases (select llvm opts funcs globals m)) [
      | inl e ↦ ground (arith, e)
      | inr (gs, e) ↦
          absurd
            (ground (arith, lacks, (select-functions llvm opts funcs globals m gs n e asked).1))
    ]
