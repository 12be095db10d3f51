-- ===== src/Tests/Extraction.antt =====
-- The extraction of src/LLVMExtract.cpp on the shared module.
use squanchy.Base.{true, false, none, List, [], ◌∷◌, ◌≡◌, refl, same}
use squanchy.Deobfuscator.{done}
use squanchy.Extract.{Gv, function, variable}
use squanchy.Extract.Select.{ExtractLlvm, ExtractOptions, llvm_extract}
use squanchy.Extract.Select.Laws.{llvm_extract-missing}
use squanchy.Tests.Data.{sample}

abbrev pub extract_llvm : ExtractLlvm
extract_llvm = record {
  matches = same;
  split_block = λ b. (b, []);
  find_block = λ f b. none;
  extract_gv = λ gs d k m. m;
  extract_blocks = λ gs m. m;
  clean_up = λ d m. m;
}

abbrev pub extract_options : ExtractOptions
extract_options = record {
  delete_fn = false;
  keep_const_init = false;
  extract_reg_exp_funcs = [];
  extract_blocks = [];
  extract_aliases = [];
  extract_reg_exp_aliases = [];
  extract_globals = [];
}

abbrev selection : List Gv
selection = variable "FUNCREF_TABLE" ∷ function "calc" ∷ []

abbrev reached : List Gv
reached = function "calc" ∷ function "i32_load" ∷ []

llvm_extract-missing_example :
    llvm_extract extract_llvm extract_options ("calc" ∷ "main" ∷ []) [] true sample
    ≡ done (sample, 1)
llvm_extract-missing_example =
    llvm_extract-missing extract_llvm extract_options ("calc" ∷ "main" ∷ []) [] true sample "main"
      refl refl
