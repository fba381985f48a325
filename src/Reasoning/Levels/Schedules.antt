-- ===== src/Reasoning/Levels/Schedules.antt =====
-- The levels of the plans `StepPlanner.plan` can make.
use Prim.Native.String.{String}
use noema.Prelude.{
  Bool, true, false, ◌&&◌, List, [], ◌∷◌, ◌++◌, length, ◌==◌, ◌≡◌, refl, ap, ap₂, ◌∙◌, arith,
}
use noema.Reasoning.Levels.{all_in, names, topological_levels, levels_from, ready, waiting}
use noema.Reasoning.Plan.{
  StepName, CoTStep, Wishes, plan, plan_steps, build_dag, is_in, repair, architecture,
}

flatten : List (List CoTStep) → List CoTStep
flatten [] = []
flatten (l ∷ ls) = l ++ flatten ls

-- The levels hold as many steps as were planned, and every planned name.
abbrev pub is_complete : List StepName → List (List CoTStep) → Bool
unfolding flatten
is_complete planned levels =
    (length (flatten levels) == length planned) && all_in planned (names (flatten levels))

-- The plan for the wishes, scheduled.
complete_for : Wishes → Bool
complete_for w = is_complete (plan_steps w) (topological_levels (build_dag (plan_steps w)))

-- A test of both Booleans.
every : (Bool → Bool) → Bool
every f = f true && f false

every-true : (f : Bool → Bool) → every f ≡ true → (b : Bool) → f b ≡ true
unfolding every
every-true f h true = ground arith
every-true f h false = ground arith

wish : Bool → Bool → Bool → Bool → Bool → Bool → Bool → Wishes
wish m d a t c o r = record {
  is_minimal = m;
  wants_data = d;
  wants_api = a;
  wants_tests = t;
  wants_security = c;
  wants_speed = o;
  wants_repair = r;
}

all_complete :
    every (λ m. every (λ d.
      every (λ a.
        every (λ t. every (λ c. every (λ o. every (λ r. complete_for (wish m d a t c o r))))))))
    ≡ true
unfolding every complete_for plan_steps topological_levels build_dag names wish is_complete
    levels_from ready waiting
all_complete = refl

wish-complete_for : (m d a t c o r : Bool) → complete_for (wish m d a t c o r) ≡ true
wish-complete_for m d a t c o r =
    every-true _
      (every-true _
        (every-true _
          (every-true _ (every-true _ (every-true _ (every-true _ all_complete m) d) a) t) c)
        o)
      r

-- The levels of the steps that `plan` chooses hold every planned step, and as many steps as were
-- planned: the scheduling loop never drops a step, whatever the tags, the complexity, the error
-- context and the past attempts are.
pub plan-is_complete :
    (lower : String → String)
    → (tags : List String) → (complexity errors : String) → (past : List String)
    → is_complete
        (plan lower tags complexity errors past)
        (topological_levels (build_dag (plan lower tags complexity errors past)))
      ≡ true
unfolding plan complete_for wish
plan-is_complete lower tags complexity errors past = wish-complete_for _ _ _ _ _ _ _

-- The names of the second level.
unfoldable pub second_level : List (List CoTStep) → List StepName
second_level (l ∷ l' ∷ ls) = names l'
second_level _ = []

-- Both names are in the second level.
unfoldable pub repair_beside : Wishes → Bool
repair_beside w =
    let level = second_level (topological_levels (build_dag (plan_steps w))) in
    is_in repair level && is_in architecture level

all_repair_beside :
    every (λ d.
      every (λ a. every (λ t. every (λ c. every (λ o. repair_beside (wish false d a t c o true))))))
    ≡ true
unfolding every repair_beside second_level plan_steps topological_levels build_dag names wish
    levels_from ready waiting
all_repair_beside = refl

-- Where a plan that is not minimal wants a repair step, that step and the architecture step are
-- both in the second level, and so run side by side.
pub repair-beside-architecture :
    (w : Wishes) → w.is_minimal ≡ false → w.wants_repair ≡ true → repair_beside w ≡ true
unfolding wish
repair-beside-architecture w long wanted =
    let same =
      ap₂ (λ m r. wish m w.wants_data w.wants_api w.wants_tests w.wants_security w.wants_speed r)
        long wanted in
    ap repair_beside same ∙ at_wish
  where
    at_wish :
        repair_beside
          (wish false w.wants_data w.wants_api w.wants_tests w.wants_security w.wants_speed true)
        ≡ true
    at_wish =
        every-true _
          (every-true _
            (every-true _ (every-true _ (every-true _ all_repair_beside w.wants_data) w.wants_api)
              w.wants_tests)
            w.wants_security)
          w.wants_speed
