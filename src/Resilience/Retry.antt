-- ===== src/Resilience/Retry.antt =====
-- The classes `RetryPolicy` and `ResilientExecutor` of noema/resilience/circuit_breaker.py. Delays
-- are milliseconds and `jitter` is in thousandths; the tuples of exception classes are the tests
-- that `isinstance` makes of them. A world `W` holds what the awaited function, the event loop and
-- the random numbers depend on; logging and the policy's name are left out.
pub mod Attempts
pub mod Circuit
use Prim.Native.Nat.{max, min}
use noema.Prelude.{
  ℕ, zero, suc, ◌+◌, ◌-◌, ◌*◌, ◌/◌, ◌^◌, Bool, true, false, Option, none, some, ltb, if◌then◌else◌,
  not, ◌||◌,
}
use noema.Resilience.Breaker.{Breaker, Exn, Outcome, admit, settle}

pub record Policy (E : Type 0) : Type 0 where
  pub max_retries : ℕ
  pub base_delay : ℕ
  pub max_delay : ℕ
  pub jitter : ℕ
  pub is_retryable : Exn E → Bool
  pub is_non_retryable : Exn E → Bool

-- The world's part: `uniform j w` draws `random.uniform(-j, j)`, given as its distance above `-j`.
pub record Runtime (W : Type 0) : Type 0 where
  pub uniform : ℕ → W → ℕ × W
  pub sleep : ℕ → W → W

-- An awaited function: it changes the world and has an outcome.
abbrev pub Action : Type 0 → Type 0 → Type 0 → Type 0
Action W E A = W → W × Outcome E A

module _ {W E : Type 0} (rt : Runtime W) (p : Policy E) where
  -- `delay + u - j` stops at 0, below the lower bound of 0.1 s that `max` puts on it.
  unfoldable pub calc_delay : ℕ → W → ℕ × W
  calc_delay attempt w =
      let delay = p.base_delay * 2 ^ attempt in
      let jitter_range = delay * p.jitter / 1000 in
      let (u, w') = rt.uniform jitter_range w in
      (min (max (delay + u - jitter_range) 100) p.max_delay, w')

  -- The pause after a failed attempt, if another attempt follows.
  unfoldable pub pause : ℕ → W → W
  pause attempt w =
      if ltb attempt p.max_retries
      then (let (delay, w') = calc_delay attempt w in rt.sleep delay w')
      else w

  -- Does the `except` clause let this exception out at once?
  unfoldable pub is_final : {A : Type 0} → Outcome E A → Bool
  is_final (Outcome.returned v) = true
  is_final (Outcome.raised e) = not (p.is_retryable e) || p.is_non_retryable e

  module _ {A : Type 0} (func : Action W E A) where
    -- The loop: the attempts after this one, the number of this one. What the last attempt
    -- raises is what the code keeps as `last_exc` and raises after the loop.
    unfoldable pub attempt_loop : ℕ → ℕ → W → W × Outcome E A
    attempt_loop zero attempt w =
        let (w', result) = func w in
        if is_final result then (w', result) else (pause attempt w', result)
    attempt_loop (suc left) attempt w =
        let (w', result) = func w in
        let rest = attempt_loop left (attempt + 1) (pause attempt w') in
        if is_final result then (w', result) else rest

    unfoldable pub execute : W → W × Outcome E A
    execute w = attempt_loop p.max_retries 0 w

-- `CircuitBreaker.execute` as an action, on a world with a breaker that no other call touches.
after_admit :
    {W E A : Type 0} → (W → ℕ) → Action W E A → W → Breaker × Option ℕ → (Breaker × W) × Outcome E A
after_admit clock func w (b, none) =
    let (w', result) = func w in ((settle (clock w') result b, w'), result)
after_admit clock func w (b, some t) = ((b, w), Outcome.raised (Exn.circuit_breaker_error t))

unfoldable pub through_circuit :
    {W E A : Type 0} → (W → ℕ) → Action W E A → Action (Breaker × W) E A
unfolding after_admit
through_circuit clock func (b, w) = after_admit clock func w (admit (clock w) b)

beside_breaker : {W : Type 0} → Runtime W → Runtime (Breaker × W)
beside_breaker rt = record {
  uniform = λ j s. let (u, w') = rt.uniform j s.1 in (u, (s.0, w'));
  sleep = λ d s. (s.0, rt.sleep d s.1);
}

-- `ResilientExecutor.execute`: every attempt of the retry policy goes through the breaker.
unfoldable pub resilient_execute :
    {W E A : Type 0}
    → Runtime W
    → Policy E
    → (W → ℕ)
    → Action W E A
    → Breaker × W
    → (Breaker × W) × Outcome E A
unfolding beside_breaker
resilient_execute rt p clock func s = execute (beside_breaker rt) p (through_circuit clock func) s
