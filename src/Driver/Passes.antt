-- ===== src/Driver/Passes.antt =====
-- `optimizeFunction`, `optimizeModule`, `replaceCallocs` and the whole of `deobfuscateFunction` of
-- src/Deobfuscator.cpp. The reports are left out.
use squanchy.Base.{ℕ, String, Bool, true, false, ◌==◌, none, some, if◌then◌else◌}
use squanchy.Ir.{Function, Module, get_function}
use squanchy.Deobfuscator.{Deobfuscator, Outcome, done, crash, out_of_fuel, ◌>>=◌}
use squanchy.Deobfuscator.Instance.{replace_instance_refs}
use squanchy.Deobfuscator.Table.{replace_funcref_table}
use squanchy.Pipeline.Rounds.{optimize_with_custom_pipeline}
use squanchy.Driver.{Llvm, Options, on_function}
use squanchy.Driver.Prepare.{is_wasm2c_function, prepare}

unfoldable pub optimize_function : Llvm → Options → Function → Function
optimize_function llvm opts f = if opts.opt_level == 0 then f else llvm.simplification_pipeline f

-- The parameter `M` is not used; the pipeline runs on the member.
unfoldable pub optimize_module : Llvm → Options → Module → Module
optimize_module llvm opts m = if opts.opt_level == 0 then m else llvm.module_pipeline m

custom : Llvm → Options → ℕ → Bool → Function → Outcome Function
custom llvm opts fuel simplify_cfg f =
    elim (optimize_with_custom_pipeline llvm.simplify llvm.run_pass simplify_cfg fuel opts.opt_level
      f) [ none ↦ out_of_fuel | some f' ↦ done f' ]

-- Step 8.
unfoldable pub optimize_thrice : Llvm → Options → ℕ → Function → Outcome Function
unfolding custom
optimize_thrice llvm opts fuel f = do
  f₁ ← custom llvm opts fuel false f
  custom llvm opts fuel true (optimize_function llvm opts f₁)

-- Step 11. Step 10, under `replace_callocs`, is commented out.
unfoldable pub restore_instance : Llvm → Options → Function → Outcome Function
restore_instance llvm opts f =
    if opts.replace_instance_refs
    then (do f' ← replace_instance_refs f; done (optimize_function llvm opts f'))
    else done f

-- Step 12.
unfoldable pub drop_table : Llvm → Options → Module → Function → Outcome Function
drop_table llvm opts m f = do f' ← replace_funcref_table m f; done (optimize_function llvm opts f')

-- Steps 8 to 12.
unfoldable pub finish : Llvm → Options → ℕ → String → Module → Outcome Module
finish llvm opts fuel n m =
    on_function n
      (λ f. do
        f₁ ← optimize_thrice llvm opts fuel f
        f₂ ← restore_instance llvm opts f₁
        drop_table llvm opts m f₂)
      m

unfoldable pub deobfuscate_function :
    Llvm → Options → ℕ → String → Deobfuscator → Outcome (Deobfuscator × Bool)
deobfuscate_function llvm opts fuel n d = elim (get_function n d.ir) [
  | none ↦ crash
  | some f ↦ do
    generated ← is_wasm2c_function f
    if generated
        then (do
          d' ← prepare llvm opts fuel n d
          m ← finish llvm opts fuel n d'.ir
          done (record d' { ir = m }, true))
        else done (d, false)
]
