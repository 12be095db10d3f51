-- ===== src/Pipeline/Rounds.antt =====
-- The loop at the end of `optimizeFunctionWithCustomPipeline`, src/Deobfuscator.cpp: the pipeline
-- runs until the instruction count stands still and the guide reports no replacement.
use squanchy.Base.{
  ℕ, zero, suc, Bool, true, false, not, ◌||◌, Option, none, some, ◌==◌, if◌then◌else◌,
}
use squanchy.Ir.{Function}
use squanchy.Deobfuscator.Count.{function_count}
use squanchy.Pipeline.{Pass, custom_pipeline}
use squanchy.Pipeline.Simba.{OptimizationGuide, initial_guide, run_passes}

-- `DoRun` after a round from `before` to `after`.
unfoldable pub runs_again : Function → Function × OptimizationGuide → Bool
runs_again before (after, g) = not (function_count after == function_count before) || g.mba_found

module _ (simplify : Function → Function × ℕ) (run_pass : Pass → Function → Function)
    (simplify_cfg : Bool) where
  -- One round.
  unfoldable pub round : Function × OptimizationGuide → Function × OptimizationGuide
  round s = run_passes simplify run_pass (custom_pipeline simplify_cfg) s

  -- On fuel; `none` means that the fuel ran out. The reports are left out.
  unfoldable pub rounds : ℕ → Function × OptimizationGuide → Option (Function × OptimizationGuide)
  rounds zero s = none
  rounds (suc fuel) s = elim (runs_again s.0 (round s)) [
    | true ↦ rounds fuel (round s)
    | false ↦ some (round s)
  ]

  -- The whole function; `opt_level` is the option `-O`, an `int` as its 32 bits.
  unfoldable pub optimize_with_custom_pipeline : ℕ → (opt_level : ℕ) → Function → Option Function
  unfolding rounds
  optimize_with_custom_pipeline fuel opt_level f =
      if opt_level == 0
      then some f
      else elim (rounds fuel (f, initial_guide)) [ none ↦ none | some s ↦ some s.0 ]
