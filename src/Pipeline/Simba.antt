-- ===== src/Pipeline/Simba.antt =====
-- `SiMBAPass::run` of src/SiMBAPass.cpp and the record `OptimizationGuide` of src/SiMBAPass.h. The
-- parser and simplifier of SiMBA++ is the argument `simplify`: the new function, and how many mixed
-- Boolean-arithmetic expressions it replaced.
use squanchy.Base.{ℕ, ◌+◌, Bool, false, List, [], ◌∷◌, if◌then◌else◌, ltb}
use squanchy.Ir.{Function, is_declaration}
use squanchy.Pipeline.{Pass, simba}

pub record OptimizationGuide : Type 0 where
  pub mba_found : Bool
  pub has_optimized : Bool
  pub simba_call_counter : ℕ

-- A guide as it is declared, before the first run.
abbrev pub initial_guide : OptimizationGuide
initial_guide = record { mba_found = false; has_optimized = false; simba_call_counter = 0 }

-- The flag is reset, and set if something was replaced; the counter grows.
unfoldable pub update_guide : ℕ → OptimizationGuide → OptimizationGuide
update_guide mba_count g = record {
  mba_found = ltb 0 mba_count;
  has_optimized = if ltb 0 mba_count then false else g.has_optimized;
  simba_call_counter = g.simba_call_counter + 1;
}

module _ (simplify : Function → Function × ℕ) (run_pass : Pass → Function → Function) where
  -- The pass's reports and its timer are left out.
  unfoldable pub run_simba : Function × OptimizationGuide → Function × OptimizationGuide
  unfolding update_guide
  run_simba (f, g) =
      if is_declaration f
      then (f, g)
      else let (f', mba_count) = simplify f in (f', update_guide mba_count g)

  unfoldable pub run_one : Pass → Function × OptimizationGuide → Function × OptimizationGuide
  unfolding run_simba
  run_one p (f, g) = elim p [ simba ↦ run_simba (f, g) | q ↦ (run_pass q f, g) ]

  -- `FPM.run`
  unfoldable pub run_passes :
      List Pass → Function × OptimizationGuide → Function × OptimizationGuide
  unfolding run_one
  run_passes [] s = s
  run_passes (p ∷ ps) s = run_passes ps (run_one p s)
