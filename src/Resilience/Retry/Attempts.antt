-- ===== src/Resilience/Retry/Attempts.antt =====
-- How often `RetryPolicy` calls its function, and what it ends with.
use Prim.Native.Nat.{min}
use noema.Prelude.{ℕ, zero, suc, ◌+◌, ◌*◌, ◌/◌, ◌^◌, ◌≤◌, ◌≡◌, true, arith, ◌⊎◌}
use noema.Resilience.Retry.{
  Policy, Runtime, Action, calc_delay, pause, is_final, attempt_loop, execute,
}

-- No pause is longer than `max_delay`, whatever the random draw, and none is shorter than the
-- smaller of 0.1 s and `max_delay`.
pub calc_delay_bounds :
    {W E : Type 0} (rt : Runtime W) (p : Policy E) (attempt : ℕ) (w : W)
    → ((calc_delay rt p attempt w).0 ≤ p.max_delay)
      × (min 100 p.max_delay ≤ (calc_delay rt p attempt w).0)
unfolding calc_delay
calc_delay_bounds rt p attempt w = (omega arith, omega arith)

module _ {W E : Type 0} (rt : Runtime W) (p : Policy E) (calls : W → ℕ)
    (drawn : (j : ℕ) (w : W) → calls (rt.uniform j w).1 ≡ calls w)
    (slept : (d : ℕ) (w : W) → calls (rt.sleep d w) ≡ calls w) where
  pub calls-pause : (attempt : ℕ) (w : W) → calls (pause rt p attempt w) ≡ calls w
  unfolding pause calc_delay
  calls-pause attempt w = ground (
    arith,
    drawn (p.base_delay * 2 ^ attempt * p.jitter / 1000) w,
    slept (calc_delay rt p attempt w).0 (calc_delay rt p attempt w).1,
  )

  module _ {A : Type 0} (func : Action W E A) where
    pub calls-attempt_loop-le :
        ((w : W) → calls (func w).0 ≤ calls w + 1)
        → (left attempt : ℕ) (w : W)
        → calls (attempt_loop rt p func left attempt w).0 ≤ calls w + suc left
    unfolding attempt_loop
    calls-attempt_loop-le once zero attempt w =
        ground (arith, once w, calls-pause attempt (func w).0)
    calls-attempt_loop-le once (suc left) attempt w = ground (
      arith,
      once w,
      calls-pause attempt (func w).0,
      calls-attempt_loop-le once left (attempt + 1) (pause rt p attempt (func w).0),
    )

    calls-attempt_loop :
        ((w : W) → calls (func w).0 ≡ calls w + 1)
        → (left attempt : ℕ) (w : W)
        → let r = attempt_loop rt p func left attempt w in
          (is_final rt p r.1 ≡ true) ⊎ (calls r.0 ≡ calls w + suc left)
    unfolding attempt_loop
    calls-attempt_loop once zero attempt w = ground (arith, once w, calls-pause attempt (func w).0)
    calls-attempt_loop once (suc left) attempt w = ground (
      arith,
      once w,
      calls-pause attempt (func w).0,
      calls-attempt_loop once left (attempt + 1) (pause rt p attempt (func w).0),
    )

    -- With a function that counts its calls, the policy makes at most `max_retries + 1` calls, and
    -- makes fewer only if it ends with a value, or with an exception that it may not retry.
    pub calls-execute :
        ((w : W) → calls (func w).0 ≡ calls w + 1)
        → (w : W)
        → let r = execute rt p func w in
          (calls r.0 ≤ calls w + (p.max_retries + 1))
          × ((is_final rt p r.1 ≡ true) ⊎ (calls r.0 ≡ calls w + (p.max_retries + 1)))
    unfolding execute
    calls-execute once w =
        let at_most : (v : W) → calls (func v).0 ≤ calls v + 1 = λ v. omega (arith, once v) in
        ground (
          arith,
          calls-attempt_loop-le at_most p.max_retries 0 w,
          calls-attempt_loop once p.max_retries 0 w,
        )
