-- ===== src/Reasoning/Tests.antt =====
-- Plans, levels and steps of noema/core/chain_of_thought.py at work.
use noema.Budget.{TokenBudget}
use noema.Prelude.{ℕ, ◌+◌, ok, ◌≡◌, refl, true, false, List, [], ◌∷◌, some}
use noema.Reasoning.Plan.{StepName, CoTStep, Wishes, plan, build_dag}
use noema.Reasoning.Levels.{topological_levels}
use noema.Reasoning.Levels.Order.{IsOrdered, topological_levels-IsOrdered}
use noema.Reasoning.Levels.Schedules.{is_complete, plan-is_complete}
use noema.Reasoning.Reflexion.{MakesCalls, reason_with_reflexion, reason_with_reflexion-MakesCalls}
use noema.Reasoning.Step.{StepStatus, Response, Setting, Progress, execute_step}
use noema.Reasoning.Step.Spending.{execute_step-over_cap}

abbrev some_steps : List CoTStep
some_steps =
    record { name = StepName.stack; depends_on = StepName.architecture ∷ [] }
    ∷ record { name = StepName.analysis; depends_on = [] }
    ∷ record { name = StepName.architecture; depends_on = StepName.analysis ∷ [] }
    ∷ []

topological_levels-IsOrdered_example : IsOrdered [] (topological_levels some_steps)
topological_levels-IsOrdered_example = topological_levels-IsOrdered some_steps

plan-is_complete_example :
    let steps = plan (λ t. t) ("web" ∷ "auth" ∷ []) "complex" "timeout" ("first attempt" ∷ []) in
    is_complete steps (topological_levels (build_dag steps)) ≡ true
plan-is_complete_example =
    plan-is_complete (λ t. t) ("web" ∷ "auth" ∷ []) "complex" "timeout" ("first attempt" ∷ [])

abbrev repairing : Wishes
repairing = record {
  is_minimal = false;
  wants_data = true;
  wants_api = false;
  wants_tests = true;
  wants_security = false;
  wants_speed = false;
  wants_repair = true;
}

abbrev setting : Setting
setting = record {
  length_of = λ t. 100;
  has_router = false;
  complete = λ provider system user.
      some (record { content = "done"; finish_reason = "stop"; tokens_used = 60 });
}

abbrev answer : Response
answer = record { content = "done"; finish_reason = "stop"; tokens_used = 60 }

-- 980 of 1000 tokens used, to stop at 0.95.
abbrev spent_budget : TokenBudget
spent_budget = record {
  max_tokens = 1000;
  warn_at = 800;
  hard_cap_at = 950;
  used = 980;
  skipped_steps = [];
  degraded = false;
}

abbrev start : Progress
start = record {
  step = record {
    name = "stack";
    system_prompt = "Choose.";
    user_prompt = "";
    result = "";
    status = StepStatus.running;
    confidence = 0;
    tokens_used = 0;
  };
  budget = some spent_budget;
  chain = [];
  asked = [];
  has_raised = false;
}

execute_step-over_cap_example :
    (execute_step setting "Go." start).budget
    ≡ some (record spent_budget { skipped_steps = "stack" ∷ []; used = 1040 })
execute_step-over_cap_example =
    execute_step-over_cap setting "Go." start spent_budget answer refl refl refl refl refl

reason_with_reflexion-MakesCalls_example :
    MakesCalls {E = ℕ} {C = ℕ}
      (λ errors attempt w. (w + 1, ok attempt))
      (λ n. "rejected")
      "too slow"
      (λ w. w)
      3
      (reason_with_reflexion
        (λ errors attempt w. (w + 1, ok attempt))
        (λ n. "rejected")
        "too slow"
        3
        0
        0)
reason_with_reflexion-MakesCalls_example =
    reason_with_reflexion-MakesCalls (λ errors attempt w. (w + 1, ok attempt)) (λ n. "rejected")
      "too slow" (λ w. w) (λ es n w. refl) 3 0 0 refl
