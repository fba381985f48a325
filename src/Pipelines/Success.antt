-- ===== src/Pipelines/Success.antt =====
-- What a run of noema/pipelines/engine.py reports of its steps.
use Prim.Native.String.{String}
use noema.Prelude.{◌≡◌, ◌⊎◌, Bool, true, false, not, ◌&&◌, List, [], ◌∷◌, map, ok}
use noema.Pipelines.{
  StepStatus, Context, PipelineStep, PipelineResult, Services, is_failed, is_skipped,
}

abbrev none_failed : List PipelineStep → Bool
none_failed [] = true
none_failed (s ∷ ss) = not (is_failed s.status) && none_failed ss

abbrev is_final : StepStatus → Bool
is_final StepStatus.completed = true
is_final StepStatus.failed = true
is_final StepStatus.skipped = true
is_final _ = false

abbrev AllFinal : List PipelineStep → Type 0
AllFinal [] = Unit
AllFinal (s ∷ ss) = (is_final s.status ≡ true) × AllFinal ss

abbrev pub names : List PipelineStep → List String
names steps = map (λ s. s.name) steps

-- A result for the steps with these names: each has ended, and `success` tells whether none failed.
pub Reports : List String → PipelineResult → Type 0
Reports ns r = (names r.steps ≡ ns) × AllFinal r.steps × (r.success ≡ none_failed r.steps)

-- The conditions raise in no context.
abbrev pub AllDecide : List PipelineStep → Type 0
AllDecide [] = Unit
AllDecide (s ∷ ss) =
    ((context : Context) → (is_skipped s context ≡ ok true) ⊎ (is_skipped s context ≡ ok false))
    × AllDecide ss

module _ {W : Type 0} (services : Services W) where
  -- A step that has been tried has completed or failed, and is still the same step.
  Ended : PipelineStep → PipelineStep → Type 0
  Ended before after = (is_final after.status ≡ true) × (after.name ≡ before.name)
