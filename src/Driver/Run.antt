-- ===== src/Driver/Run.antt =====
-- `deobfuscate` and `writeOutput` of src/Deobfuscator.cpp.
pub mod Laws
use squanchy.Base.{
  ℕ, String, Bool, true, false, Option, none, some, List, [], ◌∷◌, if◌then◌else◌, same,
}
use squanchy.Ir.{Function, Module, is_declaration, get_function}
use squanchy.Deobfuscator.{Deobfuscator, Outcome, done, ◌>>=◌}
use squanchy.Extract.Select.{llvm_extract}
use squanchy.Driver.{Llvm, Options}
use squanchy.Driver.Passes.{deobfuscate_function, optimize_module}

-- Where the module was printed.
pub data Output : Type 0 where
  nothing : Output
  to_stdout : Module → Output
  to_file : String → Module → Output

-- The members at the end, what was written and the value that `deobfuscate` returns.
pub record Result : Type 0 where
  pub deobfuscator : Deobfuscator
  pub output : Output
  pub success : Bool

-- A file that cannot be opened is reported and nothing else.
unfoldable pub write_output : Llvm → Deobfuscator → Output
write_output llvm d =
    if same d.output_file ""
    then to_stdout d.ir
    else if llvm.can_open d.output_file
    then to_file d.output_file d.ir
    else nothing

-- The loop over the names, and the value of the `return false`s in it.
unfoldable pub deobfuscate_all :
    Llvm → Options → ℕ → List String → Deobfuscator → Outcome (Deobfuscator × Bool)
deobfuscate_all llvm opts fuel [] d = done (d, true)
deobfuscate_all llvm opts fuel (n ∷ ns) d = elim (get_function n d.ir) [
  | none ↦ done (d, false)
  | some f ↦ if is_declaration f then done (d, false) else (do
    r ← deobfuscate_function llvm opts fuel n d
    if r.1 then deobfuscate_all llvm opts fuel ns r.0 else done (r.0, false))
]

-- Step 9: the value that `LLVMExtract` returns is not looked at.
unfoldable pub extract_step : Llvm → Options → Module → Outcome Module
extract_step llvm opts m =
    if opts.extract_function
    then (do
      r ←
          llvm_extract llvm.extract opts.extract opts.function_names ("data_segment_data.*" ∷ [])
            opts.extract_recursive m
      done r.0)
    else done m

-- Steps 9 to 12, from the members that the loop left.
unfoldable pub complete : Llvm → Options → Deobfuscator → Outcome Result
complete llvm opts d = do
  m ← extract_step llvm opts d.ir
  done (
      let d' : Deobfuscator = record d { ir = optimize_module llvm opts m } in
      record { deobfuscator = d'; output = write_output llvm d'; success = true })

-- What follows the loop over the names.
unfoldable pub after_loop : Llvm → Options → Deobfuscator × Bool → Outcome Result
after_loop llvm opts r =
    if r.1
    then complete llvm opts r.0
    else done (record { deobfuscator = r.0; output = nothing; success = false })

-- The list of functions and the counts are only printed.
unfoldable pub deobfuscate : Llvm → Options → ℕ → Deobfuscator → Outcome Result
deobfuscate llvm opts fuel d =
    if opts.print_functions
    then done (record { deobfuscator = d; output = nothing; success = true })
    else deobfuscate_all llvm opts fuel opts.function_names d >>= after_loop llvm opts
