-- ===== src/Resilience/Breaker/Invariant.antt =====
-- What holds of a `CircuitBreaker` between any two events, in whatever order calls start and end.
use noema.Prelude.{ℕ, ◌≤◌, ◌<◌, ◌≡◌, List, [], ◌∷◌, arith}
use noema.Resilience.Breaker.{Breaker, CircuitState, Outcome, init, observe, admit, settle, reset}

-- What may happen to a shared breaker: a call starts, a started call ends, somebody reads the
-- state (as `stats` does), or an operator resets it.
pub data Event (E A : Type 0) : Type 0 where
  start : ℕ → Event E A
  finish : ℕ → Outcome E A → Event E A
  read : ℕ → Event E A
  clear : Event E A

unfoldable pub step : {E A : Type 0} → Event E A → Breaker → Breaker
step (Event.start now) b = (admit now b).0
step (Event.finish now result) b = settle now result b
step (Event.read now) b = observe now b
step Event.clear b = reset b

unfoldable pub run : {E A : Type 0} → List (Event E A) → Breaker → Breaker
run [] b = b
run (e ∷ es) b = run es (step e b)

pub record Inv (threshold timeout probes : ℕ) (b : Breaker) : Type 0 where
  pub threshold_kept : b.failure_threshold ≡ threshold
  pub timeout_kept : b.recovery_timeout ≡ timeout
  pub probes_kept : b.half_open_max ≡ probes
  pub closed_below : b.state ≡ CircuitState.closed → b.failure_count < threshold
  pub probes_bounded : b.half_open_calls ≤ probes

pub init-Inv :
    (threshold timeout probes : ℕ)
    → 0 < threshold
    → Inv threshold timeout probes (init threshold timeout probes)
unfolding init
init-Inv threshold timeout probes h = ground arith

module _ {threshold timeout probes : ℕ} (positive : 0 < threshold) where
  pub step-Inv :
      {E A : Type 0} (e : Event E A) (b : Breaker)
      → Inv threshold timeout probes b
      → Inv threshold timeout probes (step e b)
  unfolding step observe admit settle reset
  step-Inv (Event.start now) b h = ground arith
  step-Inv (Event.finish now result) b h = ground arith
  step-Inv (Event.read now) b h = ground arith
  step-Inv Event.clear b h = ground arith

  run-Inv :
      {E A : Type 0} (es : List (Event E A)) (b : Breaker)
      → Inv threshold timeout probes b
      → Inv threshold timeout probes (run es b)
  unfolding run
  run-Inv [] b h = h
  run-Inv (e ∷ es) b h = run-Inv es (step e b) (step-Inv e b h)

-- However calls interleave, a breaker made with a positive threshold keeps its configuration, is
-- closed only while it has counted fewer failures than the threshold, and never has more than
-- `half_open_max` probes counted.
pub run-init-Inv :
    {E A : Type 0} (threshold timeout probes : ℕ) (es : List (Event E A))
    → 0 < threshold
    → Inv threshold timeout probes (run es (init threshold timeout probes))
run-init-Inv threshold timeout probes es h =
    run-Inv h es (init threshold timeout probes) (init-Inv threshold timeout probes h)
