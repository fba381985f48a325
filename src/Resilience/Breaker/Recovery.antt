-- ===== src/Resilience/Breaker/Recovery.antt =====
-- How a `CircuitBreaker` opens, rejects and recovers, call by call.
use noema.Prelude.{
  ◌⊎◌, inl, inr, ltb, Bool-cases, ℕ, ◌+◌, ◌≤◌, ◌<◌, ◌≡◌, refl, List, [], ◌∷◌, arith, length,
}
use noema.Resilience.Breaker.{Breaker, CircuitState, Exn, Outcome, init, execute}

-- Calls that all raise an `Exception`: when each starts, when it fails, and with what.
unfoldable pub fail_each : {E : Type 0} → List (ℕ × ℕ × E) → Breaker → Breaker
fail_each [] b = b
fail_each {E} ((now, later, e) ∷ fs) b =
    fail_each fs (execute {A = E} now later (Outcome.raised (Exn.exception e)) b).0

one_failure :
    {E : Type 0} (now later : ℕ) (e : E) (b : Breaker)
    → b.state ≡ CircuitState.closed
    → b.failure_count < b.failure_threshold
    → let b' = (execute {A = E} now later (Outcome.raised (Exn.exception e)) b).0 in
      (b'.failure_threshold ≡ b.failure_threshold)
      × (b'.failure_count ≡ b.failure_count + 1)
      × (b.failure_count + 1 < b.failure_threshold → b'.state ≡ CircuitState.closed)
      × (b.failure_count + 1 ≡ b.failure_threshold → b'.state ≡ CircuitState.open_)
unfolding execute
one_failure now later e b c h = ground arith

fail_each-from :
    {E : Type 0} (fs : List (ℕ × ℕ × E)) (b : Breaker)
    → b.state ≡ CircuitState.closed
    → b.failure_count + length fs < b.failure_threshold
    → ((fail_each fs b).state ≡ CircuitState.closed)
      × ((fail_each fs b).failure_count ≡ b.failure_count + length fs)
      × ((fail_each fs b).failure_threshold ≡ b.failure_threshold)
unfolding fail_each
fail_each-from [] b c h = (c, omega arith, refl)
fail_each-from {E} ((now, later, e) ∷ fs) b c h =
    ground (arith, one, fail_each-from fs b' (ground (arith, one)) (ground (arith, one)))
  where
    b' : Breaker
    b' = (execute {A = E} now later (Outcome.raised (Exn.exception e)) b).0

    one :
        (b'.failure_threshold ≡ b.failure_threshold)
        × (b'.failure_count ≡ b.failure_count + 1)
        × (b.failure_count + 1 < b.failure_threshold → b'.state ≡ CircuitState.closed)
        × (b.failure_count + 1 ≡ b.failure_threshold → b'.state ≡ CircuitState.open_)
    one = one_failure now later e b c (omega arith)

-- A fresh breaker stays closed during fewer failures in a row than its threshold, counts each of
-- them, and the next failure opens it if it is the one that reaches the threshold, and else leaves
-- it closed.
pub opens_at_threshold :
    {E : Type 0} (threshold timeout probes : ℕ) (fs : List (ℕ × ℕ × E)) (now later : ℕ) (e : E)
    → length fs < threshold
    → let b = fail_each fs (init threshold timeout probes) in
      let b' = (execute {A = E} now later (Outcome.raised (Exn.exception e)) b).0 in
      (b.state ≡ CircuitState.closed)
      × (b.failure_count ≡ length fs)
      × (((length fs + 1 < threshold) × (b'.state ≡ CircuitState.closed))
          ⊎ ((length fs + 1 ≡ threshold) × (b'.state ≡ CircuitState.open_)))
unfolding init
opens_at_threshold {E} threshold timeout probes fs now later e h = (
  before.0,
  omega (arith, before.1),
  elim (Bool-cases (ltb (length fs + 1) threshold)) [
    | inl y ↦ inl (
        ground
          (arith, before, one_failure now later e (fail_each fs (init threshold timeout probes))))
    | inr n ↦ inr (
        ground
          (arith, before, one_failure now later e (fail_each fs (init threshold timeout probes))))
  ],
)
  where
    before :
        ((fail_each fs (init threshold timeout probes)).state ≡ CircuitState.closed)
        × ((fail_each fs (init threshold timeout probes)).failure_count ≡ 0 + length fs)
        × ((fail_each fs (init threshold timeout probes)).failure_threshold ≡ threshold)
    before = fail_each-from fs (init threshold timeout probes) refl (omega arith)

-- An open breaker that may send probes: before its timeout is over a call is refused, unmade, with
-- the time of recovery, and nothing changes; from then on the call is made, a normal return closes
-- the breaker and clears its failures, and an `Exception` opens it again from that moment.
pub open_contract :
    {E A : Type 0} (now later : ℕ) (v : A) (e : E) (b : Breaker)
    → b.state ≡ CircuitState.open_
    → 0 < b.half_open_max
    → let recovery = b.last_failure_time + b.recovery_timeout in
      let good = execute {E = E} now later (Outcome.returned v) b in
      let bad = execute {A = A} now later (Outcome.raised (Exn.exception e)) b in
      ((now < recovery)
        × (good ≡ (b, Outcome.raised (Exn.circuit_breaker_error recovery)))
        × (bad ≡ (b, Outcome.raised (Exn.circuit_breaker_error recovery))))
      ⊎ ((recovery ≤ now)
          × (good.1 ≡ Outcome.returned v)
          × (good.0.state ≡ CircuitState.closed)
          × (good.0.failure_count ≡ 0)
          × (bad.1 ≡ Outcome.raised (Exn.exception e))
          × (bad.0.state ≡ CircuitState.open_)
          × (bad.0.last_failure_time ≡ later))
unfolding execute
open_contract now later v e b o p =
    elim (Bool-cases (ltb now (b.last_failure_time + b.recovery_timeout))) [
      | inl y ↦ inl (ground arith)
      | inr n ↦ inr (ground arith)
    ]
