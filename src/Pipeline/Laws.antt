-- ===== src/Pipeline/Laws.antt =====
-- What the custom pipeline of src/Deobfuscator.cpp consists of, and when its rounds stop.
use squanchy.Base.{ℕ, ◌≡◌, refl, ◌∙◌, Bool, true, false, List, [], ◌∷◌, ◌++◌, if◌then◌else◌, count}
use squanchy.Ir.{Function, is_declaration}
use squanchy.Pipeline.{Pass, simba, simplify_cfg, early_passes, late_passes, custom_pipeline}

abbrev pub is_simba : Pass → Bool
is_simba p = elim p [ simba ↦ true | _ ↦ false ]

abbrev pub is_simplify_cfg : Pass → Bool
is_simplify_cfg p = elim p [ simplify_cfg _ ↦ true | _ ↦ false ]

abbrev pub middle_passes : Bool → List Pass
middle_passes b = early_passes b ++ late_passes b

-- SiMBA is the first and the last pass of the pipeline and stands nowhere between. With the
-- parameter off, two passes that simplify the control flow remain of six.
pub custom_pipeline-shape :
    (b : Bool)
    → (custom_pipeline b ≡ simba ∷ (middle_passes b ++ simba ∷ []))
      × (count is_simba (middle_passes b) ≡ 0)
      × (count is_simplify_cfg (custom_pipeline b) ≡ (if b then 6 else 2))
unfolding custom_pipeline
custom_pipeline-shape true = (refl, refl, refl)
custom_pipeline-shape false = (refl, refl, refl)

module _ (simplify : Function → Function × ℕ) (run_pass : Pass → Function → Function) where
  -- LLVM's own passes in a row; they do not see the guide.
  unfoldable pub run_plain : List Pass → Function → Function
  run_plain [] f = f
  run_plain (p ∷ ps) f = run_plain ps (run_pass p f)

  module _
      (keeps_body : (p : Pass) (f : Function) → is_declaration (run_pass p f) ≡ is_declaration f)
      (simplify_keeps_body : (f : Function)
        → is_declaration (simplify f).0 ≡ is_declaration f) where
    run_plain-body :
        (ps : List Pass) (f : Function) → is_declaration (run_plain ps f) ≡ is_declaration f
    unfolding run_plain
    run_plain-body [] f = refl
    run_plain-body (p ∷ ps) f = run_plain-body ps (run_pass p f) ∙ keeps_body p f

    -- What the late SiMBA of a round is run on.
    unfoldable pub before_late : Bool → Function → Function
    before_late b f = run_plain (middle_passes b) (simplify f).0

    pub before_late-body :
        (b : Bool) (f : Function) → is_declaration (before_late b f) ≡ is_declaration f
    unfolding before_late
    before_late-body b f = run_plain-body (middle_passes b) (simplify f).0 ∙ simplify_keeps_body f
