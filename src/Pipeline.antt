-- ===== src/Pipeline.antt =====
-- The custom function pipeline of `optimizeFunctionWithCustomPipeline`, src/Deobfuscator.cpp: the
-- passes that it adds, in order. What the passes of LLVM do is not modelled.
pub mod Simba
pub mod Rounds
pub mod Laws
pub mod Stop
use squanchy.Base.{ℕ, Bool, true, false, List, [], ◌∷◌, ◌++◌, if◌then◌else◌}

-- `SimplifyCFGOptions`, as far as the source sets them.
pub record CfgOptions : Type 0 where
  pub convert_switch_range : Bool
  pub hoist : Bool
  pub sink : Bool

pub data Pass : Type 0 where
  simba lower_expect call_site_splitting float2int inject_tli_mappings gvn_hoist gvn_sink : Pass
  jump_threading correlated_value_propagation aggressive_inst_combine lib_calls_shrink_wrap : Pass
  tail_call_elim reassociate constraint_elimination merged_load_store_motion gvn new_gvn : Pass
  sroa_preserve_cfg assume_simplify sccp bdce adce mem_cpy_opt dse move_auto_init coro_elide : Pass
  entry_exit_instrumenter : (post_inlining : Bool) → Pass
  simplify_cfg : CfgOptions → Pass
  early_cse : (memory_ssa : Bool) → Pass
  speculative_execution : (only_if_divergent : Bool) → Pass
  inst_combine : (max_iterations : ℕ) → Pass
  vector_combine : (early : Bool) → Pass

abbrev pub plain : CfgOptions
plain = record { convert_switch_range = false; hoist = false; sink = false }

abbrev pub switch_range : CfgOptions
switch_range = record { convert_switch_range = true; hoist = false; sink = false }

abbrev pub hoist_sink : CfgOptions
hoist_sink = record { convert_switch_range = true; hoist = true; sink = true }

-- `if (flag) FPM.addPass(…)`
abbrev pub when : Bool → List Pass → List Pass
when flag ps = if flag then ps else []

abbrev pub enable_knowledge_retention : Bool
enable_knowledge_retention = false

abbrev pub enable_gvn_hoist : Bool
enable_gvn_hoist = true

abbrev pub enable_gvn_sink : Bool
enable_gvn_sink = true

abbrev pub run_new_gvn : Bool
run_new_gvn = false

-- From the entry instrumenter to the first instcombine.
unfoldable pub early_passes : Bool → List Pass
early_passes simplify =
    entry_exit_instrumenter false ∷ lower_expect ∷ []
    ++ (when simplify (simplify_cfg plain ∷ [])
        ++ (sroa_preserve_cfg
              ∷ early_cse false
              ∷ call_site_splitting
              ∷ float2int
              ∷ inject_tli_mappings
              ∷ sroa_preserve_cfg
              ∷ early_cse true
              ∷ []
            ++ (when enable_knowledge_retention (assume_simplify ∷ [])
                ++ (when enable_gvn_hoist (gvn_hoist ∷ [])
                    ++ (when simplify
                          (when enable_gvn_sink (gvn_sink ∷ simplify_cfg switch_range ∷ []))
                        ++ (speculative_execution true
                              ∷ jump_threading
                              ∷ correlated_value_propagation
                              ∷ []
                            ++ (when simplify (simplify_cfg switch_range ∷ [])
                                ++ (inst_combine 1 ∷ []))))))))

-- From the aggressive instcombine to the last pass before the late SiMBA.
unfoldable pub late_passes : Bool → List Pass
late_passes simplify =
    aggressive_inst_combine
      ∷ lib_calls_shrink_wrap
      ∷ tail_call_elim
      ∷ simplify_cfg switch_range
      ∷ reassociate
      ∷ constraint_elimination
      ∷ []
    ++ (when simplify (simplify_cfg switch_range ∷ [])
        ++ (inst_combine 1 ∷ sroa_preserve_cfg ∷ vector_combine true ∷ merged_load_store_motion ∷ []
            ++ ((if run_new_gvn then new_gvn ∷ [] else gvn ∷ [])
                ++ (sccp
                    ∷ bdce
                    ∷ inst_combine 1
                    ∷ jump_threading
                    ∷ correlated_value_propagation
                    ∷ adce
                    ∷ mem_cpy_opt
                    ∷ dse
                    ∷ move_auto_init
                    ∷ coro_elide
                    ∷ simplify_cfg hoist_sink
                    ∷ inst_combine 1
                    ∷ []))))

unfoldable pub custom_pipeline : Bool → List Pass
unfolding early_passes late_passes
custom_pipeline simplify =
    simba ∷ [] ++ (early_passes simplify ++ (late_passes simplify ++ (simba ∷ [])))
