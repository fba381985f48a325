-- ===== src/Pipelines/Tests.antt =====
-- The pipelines of noema/pipelines/engine.py at work.
use noema.Prelude.{ℕ, zero, suc, ◌+◌, ◌≤◌, true, false, List, [], none, some, ok, arith}
use noema.Pipelines.{PipelineStep, Attempt, Services, add_step, execute}
use noema.Pipelines.Attempts.{allowed, calls-execute-within}

-- A world that counts the calls; the kernel times out at its first call.
abbrev fails_first : ℕ → Attempt
fails_first zero = Attempt.timed_out
fails_first (suc w) = Attempt.returned "{}"

abbrev services : Services ℕ
services = record {
  has_noema = true;
  has_kernel = λ k. true;
  run_kernel = λ s w. (w + 1, fails_first w);
  run_func = λ s c w. (w + 1, Attempt.raised "boom");
  on_step_complete = λ s w. (w, none);
  on_error = λ s w. (w, none);
}

abbrev steps : List PipelineStep
unfolding add_step
steps =
    add_step "generate" none true (some (λ c. ok true)) 1 "30"
      (add_step "analysis" (some "analysis") false none 1 "30" [])

calls-execute-within_example : (execute services steps "t" [] 0).0 ≤ 0 + allowed steps
calls-execute-within_example =
    calls-execute-within services (λ w. w) (λ s w. omega arith) (λ s c w. omega arith)
      (λ s w. omega arith) (λ s w. omega arith) steps "t" [] 0
