-- ===== src/Driver/Main.antt =====
-- `main` and `ParseLLVMOptions` of src/Squanchy.cpp.
use squanchy.Base.{ℕ, String, Bool, false, List, [], ◌∷◌, ◌++◌, if◌then◌else◌}
use squanchy.Deobfuscator.{Outcome, done, ◌>>=◌}
use squanchy.Driver.{Llvm, Options, construct}
use squanchy.Driver.Run.{Output, deobfuscate}

-- The thresholds that the option `-override` stands for.
abbrev pub thresholds : List String
thresholds =
    "-memdep-block-scan-limit=1000000" ∷ "-dse-memoryssa-walklimit=1000000"
    ∷ "-available-load-scan-limit=1000000" ∷ "-dse-memoryssa-scanlimit=1000000"
    ∷ "-earlycse-mssa-optimization-cap=1000000" ∷ "-memssa-check-limit=1000000"
    ∷ "-dse-memoryssa-defs-per-block-limit=1000000" ∷ "-dse-memoryssa-partial-store-limit=1000000"
    ∷ "-dse-memoryssa-path-check-limit=1000000" ∷ "-dse-memoryssa-otherbb-cost=2"
    ∷ "-memdep-block-number-limit=1000000" ∷ "-gvn-max-block-speculations=1000000"
    ∷ "-gvn-max-num-deps=1000000" ∷ "-gvn-hoist-max-chain-length=-1" ∷ "-gvn-hoist-max-depth=-1"
    ∷ "-gvn-hoist-max-bbs=-1" ∷ "-unroll-threshold=1000000" ∷ "-unroll-count=64"
    ∷ "-dfa-cost-threshold=1000000" ∷ "-dfa-max-path-length=1000000" ∷ "-dfa-max-num-paths=1000000"
    ∷ []

-- The arguments that `ParseCommandLineOptions` is given, by the value that the option has at that
-- time.
unfoldable pub parse_llvm_options : (override : Bool) → List String → List String
parse_llvm_options override argv = argv ++ (if override then thresholds else [])

-- `main`, with the command line's parser as `parse`: the options, the input file and the output
-- file. No option has been parsed when `-override` is read. The result is the exit code and what
-- was written.
unfoldable pub run_main :
    Llvm → (List String → Options × String × String) → ℕ → List String → Outcome (Output × ℕ)
run_main llvm parse fuel argv =
    let (opts, input, output) = parse (parse_llvm_options false argv) in
    do
      d ← construct llvm opts input output
      r ← deobfuscate llvm opts fuel d
      done (r.output, if r.success then 0 else 1)
