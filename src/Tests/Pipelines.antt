-- ===== src/Tests/Pipelines.antt =====
-- The custom pipeline of src/Deobfuscator.cpp on the shared module, with passes that change nothing.
use squanchy.Base.{[], ◌∷◌, ℕ, true, false, none, some, ◌≡◌, refl}
use squanchy.Ir.{Function}
use squanchy.Deobfuscator.Count.{function_count}
use squanchy.Pipeline.{Pass, custom_pipeline}
use squanchy.Pipeline.Simba.{OptimizationGuide, initial_guide, run_passes}
use squanchy.Pipeline.Rounds.{runs_again, round, rounds}
use squanchy.Tests.Data.{calc}

abbrev keep_function : Pass → Function → Function
keep_function p f = f

abbrev find_one : Function → Function × ℕ
find_one f = (f, 1)

abbrev find_none : Function → Function × ℕ
find_none f = (f, 0)

abbrev empty : Function
empty = record calc { blocks = [] ∷ [] }

abbrev calm_guide : OptimizationGuide
calm_guide = record initial_guide { simba_call_counter = 4 }

-- The passes make `calc` of every function.
abbrev make_calc : Pass → Function → Function
make_calc p f = calc

-- It takes two rounds.
two_rounds : rounds find_none make_calc false 2 (empty, initial_guide) ≡ some (calc, calm_guide)
unfolding rounds round runs_again run_passes custom_pipeline function_count
two_rounds = refl

never_done : rounds find_one keep_function true 5 (calc, initial_guide) ≡ none
unfolding rounds round runs_again run_passes custom_pipeline function_count
never_done = refl
