-- ===== src/Driver/Run/Laws.antt =====
-- What `deobfuscate` and `main` promise: nothing is written on a failure.
use squanchy.Base.{
  ℕ, String, Bool, true, false, List, if◌then◌else◌, ◌≡◌, sym, ap, arith, inl, inr, same,
  Bool-cases, ◌↔◌, [], ◌∷◌, ◌++◌, refl,
}
use squanchy.Ir.{Module}
use squanchy.Deobfuscator.{Deobfuscator, done, ◌>>=◌, >>=-eq-done}
use squanchy.Driver.{Llvm, Options, construct}
use squanchy.Driver.Passes.{optimize_module}
use squanchy.Driver.Run.{
  Output, nothing, Result, write_output, deobfuscate_all, extract_step, complete, after_loop,
  deobfuscate,
}
use squanchy.Driver.Main.{parse_llvm_options, run_main}

abbrev completed : Llvm → Options → Deobfuscator → Module → Result
completed llvm opts d m =
    let d' : Deobfuscator = record d { ir = optimize_module llvm opts m } in
    record { deobfuscator = d'; output = write_output llvm d'; success = true }

complete-success :
    (llvm : Llvm) (opts : Options) (d : Deobfuscator) (r : Result)
    → complete llvm opts d ≡ done r
    → (m : Module) × (completed llvm opts d m ≡ r)
unfolding complete
complete-success llvm opts d r h =
    let (m, e, k) =
      >>=-eq-done (extract_step llvm opts d.ir) (λ m. done (completed llvm opts d m)) r h in
    (m, ground (arith, k))

after_loop-failed :
    (llvm : Llvm) (opts : Options) (d : Deobfuscator) (ok : Bool) (r : Result)
    → after_loop llvm opts (d, ok) ≡ done r
    → r.success ≡ false
    → r.output ≡ nothing
unfolding after_loop
after_loop-failed llvm opts d true r h failed =
    let (m, is) = complete-success llvm opts d r h in
    absurd (ground (arith, ap (λ (x : Result). x.success) is, failed))
after_loop-failed llvm opts d false r h failed = ground (arith, h)

-- `deobfuscate` that returns false has written nothing.
deobfuscate-failed :
    (llvm : Llvm) (opts : Options) (fuel : ℕ) (d : Deobfuscator) (r : Result)
    → deobfuscate llvm opts fuel d ≡ done r
    → r.success ≡ false
    → r.output ≡ nothing
unfolding deobfuscate
deobfuscate-failed llvm opts fuel d r h failed = elim (Bool-cases opts.print_functions) [
  | inl p ↦ ground (arith, p, h)
  | inr p ↦
      let ((d', ok), e, k) =
        >>=-eq-done (deobfuscate_all llvm opts fuel opts.function_names d) (after_loop llvm opts) r
          (ground (arith, p, h)) in
      after_loop-failed llvm opts d' ok r k failed
]

-- An output file that is named and cannot be opened does not make `deobfuscate` fail: where the passes return,
-- nothing is written and the result is a success.
pub complete-unopenable :
    (llvm : Llvm) (opts : Options) (d : Deobfuscator) (r : Result)
    → llvm.can_open d.output_file ≡ false
    → same d.output_file "" ≡ false
    → complete llvm opts d ≡ done r
    → (r.output ≡ nothing) × (r.success ≡ true)
unfolding complete write_output
complete-unopenable llvm opts d r closed named h =
    let (m, is) = complete-success llvm opts d r h in
    (
      ground (arith, ap (λ (x : Result). x.output) is, closed, named),
      ap (λ (x : Result). x.success) (sym is),
    )

all_given : (argv : List String) → argv ++ [] ≡ argv
all_given [] = refl
all_given (a ∷ argv) = ap (λ (as_ : List String). a ∷ as_) (all_given argv)

-- The program that returns has constructed the deobfuscator, without `-override`, and run it; it
-- ends with 0 exactly if the run is a success and with 1 otherwise, what it has written is what
-- the run has written, and with 1 that is nothing.
pub run_main-exit :
    (llvm : Llvm) (parse : List String → Options × String × String) (fuel : ℕ) (argv : List String)
    (out : Output) (code : ℕ)
    → run_main llvm parse fuel argv ≡ done (out, code)
    → (d : Deobfuscator) × (r : Result) × (construct llvm
          (parse argv).0
          (parse argv).1
          (parse argv).2
        ≡ done d)
      × (deobfuscate llvm (parse argv).0 fuel d ≡ done r)
      × (out ≡ r.output)
      × ((r.success ≡ true) ↔ (code ≡ 0))
      × ((r.success ≡ false) ↔ (code ≡ 1))
      × (code ≡ 1 → out ≡ nothing)
unfolding run_main parse_llvm_options
run_main-exit llvm parse fuel argv out code h =
    let as_given : argv ++ [] ≡ argv = all_given argv in
    let (opts, input, output) = parse argv in
    let h' = rw as_given at h in
    let (d, e, k) =
      >>=-eq-done (construct llvm opts input output)
        (λ d. deobfuscate llvm opts fuel d >>= (λ r. done (r.output, if r.success then 0 else 1)))
        (out, code) h' in
    let (r, e', k') =
      >>=-eq-done (deobfuscate llvm opts fuel d) (λ r. done (r.output, if r.success then 0 else 1))
        (out, code) k in
    elim (Bool-cases r.success) [
      | inl good ↦ (
        d,
        r,
        e,
        e',
        ground (arith, k', good),
        (ground (arith, k', good), ground (arith, k', good)),
        (ground (arith, k', good), ground (arith, k', good)),
        ground (arith, k', good),
      )
      | inr bad ↦ (
        d,
        r,
        e,
        e',
        ground (arith, k', bad),
        (ground (arith, k', bad), ground (arith, k', bad)),
        (ground (arith, k', bad), ground (arith, k', bad)),
        λ one. ground (arith, k', deobfuscate-failed llvm opts fuel d r e' bad),
      )
    ]
