-- ===== src/Reasoning/Levels.antt =====
-- `ChainOfThought._topological_levels` of noema/core/chain_of_thought.py.
pub mod Order
pub mod Schedules
use noema.Prelude.{
  ℕ, zero, suc, Bool, true, false, ◌&&◌, List, [], ◌∷◌, ◌++◌, map, length, if◌then◌else◌,
}
use noema.Reasoning.Plan.{StepName, CoTStep, is_in}

-- `all(dep in added for dep in deps)`
abbrev pub all_in : List StepName → List StepName → Bool
all_in [] added = true
all_in (d ∷ ds) added = is_in d added && all_in ds added

-- The two results of the inner loop: the level, and what remains.
unfoldable pub ready : List StepName → List CoTStep → List CoTStep
ready added [] = []
ready added (s ∷ ss) = if all_in s.depends_on added then s ∷ ready added ss else ready added ss

unfoldable pub waiting : List StepName → List CoTStep → List CoTStep
waiting added [] = []
waiting added (s ∷ ss) =
    if all_in s.depends_on added then waiting added ss else s ∷ waiting added ss

unfoldable pub names : List CoTStep → List StepName
names ss = map (λ s. s.name) ss

is_empty : List CoTStep → Bool
is_empty [] = true
is_empty (s ∷ ss) = false

-- The `while` loop, on fuel; a round that finds no level clears what remains.
unfoldable pub levels_from : ℕ → List StepName → List CoTStep → List (List CoTStep)
unfolding is_empty names
levels_from zero added remaining = []
levels_from (suc fuel) added remaining =
    let level = ready added remaining in
    let rest = levels_from fuel (added ++ names level) (waiting added remaining) in
    if is_empty level then [] else level ∷ rest

-- As many rounds as steps are enough, since each but the last takes a step.
unfoldable pub topological_levels : List CoTStep → List (List CoTStep)
topological_levels steps = levels_from (length steps) [] steps
