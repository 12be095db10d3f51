-- ===== src/Pipeline/Stop.antt =====
-- When the rounds of `optimizeFunctionWithCustomPipeline`, src/Deobfuscator.cpp, stop.
use squanchy.Base.{ℕ, zero, suc, ◌≡◌, Bool, false}
use squanchy.Ir.{Function}
use squanchy.Deobfuscator.Count.{function_count}
use squanchy.Pipeline.{Pass}
use squanchy.Pipeline.Simba.{OptimizationGuide}
use squanchy.Pipeline.Rounds.{round}

module _ (simplify : Function → Function × ℕ) (run_pass : Pass → Function → Function)
    (simplify_cfg : Bool) where
  -- As many rounds, whatever they ask for.
  abbrev pub after : ℕ → Function × OptimizationGuide → Function × OptimizationGuide
  after zero s = s
  after (suc n) s = after n (round simplify run_pass simplify_cfg s)

  -- A round from here leaves the instruction count and its late SiMBA replaces nothing.
  abbrev pub Quiet : Function × OptimizationGuide → Type 0
  Quiet s =
      (function_count (round simplify run_pass simplify_cfg s).0 ≡ function_count s.0)
      × ((round simplify run_pass simplify_cfg s).1.mba_found ≡ false)
