-- ===== src/Resilience/Retry/Circuit.antt =====
-- The retry policy over a circuit breaker, as `ResilientExecutor` combines them.
use noema.Prelude.{ℕ, ◌+◌, ◌≤◌, ◌≡◌, arith, Option, none, some}
use noema.Resilience.Breaker.{Breaker, admit}
use noema.Resilience.Retry.{
  Policy, Runtime, Action, execute, through_circuit, after_admit, beside_breaker, resilient_execute,
}
use noema.Resilience.Retry.Attempts.{calls-attempt_loop-le}

module _ {W E A : Type 0} (clock : W → ℕ) (calls : W → ℕ) (func : Action W E A) where
  calls-after_admit :
      ((w : W) → calls (func w).0 ≤ calls w + 1)
      → (w : W) (r : Breaker × Option ℕ) → calls (after_admit clock func w r).0.1 ≤ calls w + 1
  unfolding after_admit
  calls-after_admit once w (b, none) = once w
  calls-after_admit once w (b, some t) = omega arith

  pub calls-through_circuit :
      ((w : W) → calls (func w).0 ≤ calls w + 1)
      → (s : Breaker × W) → calls (through_circuit clock func s).0.1 ≤ calls s.1 + 1
  unfolding through_circuit
  calls-through_circuit once (b, w) = calls-after_admit once w (admit (clock w) b)

  -- In whatever state the breaker is, one call of the executor makes at most `max_retries + 1`
  -- calls of the function, if each of these counts for one at most and a pause for none.
  pub calls-resilient_execute :
      (rt : Runtime W) (p : Policy E)
      → ((j : ℕ) (w : W) → calls (rt.uniform j w).1 ≡ calls w)
      → ((d : ℕ) (w : W) → calls (rt.sleep d w) ≡ calls w)
      → ((w : W) → calls (func w).0 ≤ calls w + 1)
      → (b : Breaker) (w : W)
      → calls (resilient_execute rt p clock func (b, w)).0.1 ≤ calls w + (p.max_retries + 1)
  unfolding resilient_execute execute
  calls-resilient_execute rt p drawn slept once b w = omega (
    arith,
    calls-attempt_loop-le (beside_breaker rt) p (λ s. calls s.1) (λ j s. drawn j s.1)
        (λ d s. slept d s.1) (through_circuit clock func) (calls-through_circuit once) p.max_retries
        0 (b, w),
  )
