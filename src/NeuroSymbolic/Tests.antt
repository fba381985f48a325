-- ===== src/NeuroSymbolic/Tests.antt =====
-- A run of `think` of noema/neurosymbolic/engine.py with services that refine once.
use noema.Prelude.{ℕ, ◌+◌, ◌≤◌, refl, arith, true, [], length, leb, ok}
use noema.NeuroSymbolic.Think.State.{Run}
use noema.NeuroSymbolic.Think.{Services, Engine, think}
use noema.NeuroSymbolic.Think.Invariants.{IsBalanced}
use noema.NeuroSymbolic.Think.Verified.{AllBacked, think-AllBacked, think-IsBalanced}
use noema.NeuroSymbolic.Think.Bounds.{think_bounded}

-- Numbers for every part: the verifier accepts a hypothesis from 1 on, and a refinement adds 1.
abbrev services : Services ℕ ℕ ℕ ℕ ℕ ℕ ℕ ℕ
services = record {
  not_started = 0;
  validate = λ raw. ok raw;
  parse_task = λ task w. (w, ok task);
  generate_hypothesis = λ task w. (w + 1, ok 0);
  analyze_solution_static = λ h w. (w, ok 0);
  verify_solution = λ h graph w. (w, ok (leb 1 h, []));
  refine_hypothesis = λ h violations task w. (w + 1, ok (h + 1));
  record_outcome = λ task h good violations w. (w, ok tt);
  run_causal_analysis = λ task w. (w, ok []);
  commit_reasoning_trace = λ commit w. (w, ok tt);
}

abbrev engine : Engine
engine = record {
  started = true;
  max_refinement_attempts = 3;
  enable_evolution = true;
  enable_causal = true;
  has_trace_dir = true;
}

abbrev fresh : Run ℕ ℕ ℕ ℕ ℕ
fresh = record {
  world = 0;
  metrics = record {
    tasks_processed = 0;
    tasks_successful = 0;
    tasks_failed = 0;
    total_refinements = 0;
    total_llm_calls = 0;
  };
  events = [];
  rounds = [];
}

think-AllBacked_example : AllBacked services engine (think services engine 7 fresh).0.events
think-AllBacked_example = think-AllBacked services engine 7 fresh tt

think-IsBalanced_example : IsBalanced services engine (think services engine 7 fresh).0.metrics
think-IsBalanced_example = think-IsBalanced services engine 7 fresh refl

think_bounded_example :
    let r = (think services engine 7 fresh).0 in
    (length r.rounds ≤ 3) × (r.metrics.total_llm_calls ≤ 3) × (r.metrics.tasks_processed ≤ 2)
think_bounded_example = think_bounded services engine 7 fresh (omega arith)
