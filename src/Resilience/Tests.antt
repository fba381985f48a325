-- ===== src/Resilience/Tests.antt =====
-- Runs of a breaker and of a retry policy of noema/resilience/circuit_breaker.py.
use noema.Prelude.{ℕ, ◌+◌, ◌≤◌, ◌<◌, ◌≡◌, refl, arith, ◌⊎◌, true, false, List, [], ◌∷◌, map}
use noema.Resilience.Breaker.{Breaker, CircuitState, Exn, Outcome, init, execute}
use noema.Resilience.Breaker.Invariant.{Event, Inv, run, run-init-Inv}
use noema.Resilience.Breaker.Recovery.{fail_each, opens_at_threshold, open_contract}
use noema.Resilience.Breaker.Interleaving.{
  admitted, outcomes, IsUncounted, refusal, admitted-le-half_open_max, lost_probe_refuses_forever,
}
use noema.Resilience.Retry.{Policy, Runtime, Action}

-- Two failures opened it at 1000 ms; it waits 30 s and sends one probe.
abbrev tripped : Breaker
tripped = record {
  failure_threshold = 2;
  recovery_timeout = 30000;
  half_open_max = 1;
  state = CircuitState.open_;
  failure_count = 2;
  success_count = 0;
  last_failure_time = 1000;
  half_open_calls = 0;
}

run-init-Inv_example : Inv 2 30000 1 (
    run {E = ℕ} {A = ℕ}
      (Event.start 5
        ∷ Event.finish 6 (Outcome.raised (Exn.exception 0))
        ∷ Event.finish 7 (Outcome.raised (Exn.exception 0))
        ∷ Event.start 40000
        ∷ [])
      (init 2 30000 1))
run-init-Inv_example = run-init-Inv 2 30000 1 _ (omega arith)

opens_at_threshold_example :
    let b = fail_each {E = ℕ} ((1, 2, 0) ∷ []) (init 2 30000 1) in
    let b' = (execute {E = ℕ} {A = ℕ} 3 4 (Outcome.raised (Exn.exception 0)) b).0 in
    (b.state ≡ CircuitState.closed)
    × (b.failure_count ≡ 1)
    × (((1 + 1 < 2) × (b'.state ≡ CircuitState.closed))
        ⊎ ((1 + 1 ≡ 2) × (b'.state ≡ CircuitState.open_)))
opens_at_threshold_example = opens_at_threshold 2 30000 1 ((1, 2, 0) ∷ []) 3 4 0 (omega arith)

open_contract_example :
    let good = execute {E = ℕ} {A = ℕ} 31000 31005 (Outcome.returned 7) tripped in
    let bad = execute {E = ℕ} {A = ℕ} 31000 31005 (Outcome.raised (Exn.exception 0)) tripped in
    ((31000 < 31000)
      × (good ≡ (tripped, Outcome.raised (Exn.circuit_breaker_error 31000)))
      × (bad ≡ (tripped, Outcome.raised (Exn.circuit_breaker_error 31000))))
    ⊎ ((31000 ≤ 31000)
        × (good.1 ≡ Outcome.returned 7)
        × (good.0.state ≡ CircuitState.closed)
        × (good.0.failure_count ≡ 0)
        × (bad.1 ≡ Outcome.raised (Exn.exception 0))
        × (bad.0.state ≡ CircuitState.open_)
        × (bad.0.last_failure_time ≡ 31005))
open_contract_example = open_contract 31000 31005 7 0 tripped refl (omega arith)

admitted-le-half_open_max_example : admitted (5 ∷ 31000 ∷ 31001 ∷ 31002 ∷ []) tripped ≤ 1
admitted-le-half_open_max_example =
    admitted-le-half_open_max (5 ∷ 31000 ∷ 31001 ∷ 31002 ∷ []) tripped refl

abbrev later_calls : List (ℕ × ℕ × Outcome ℕ ℕ)
later_calls = (40000, 40001, Outcome.returned 1) ∷ (90000, 90001, Outcome.returned 2) ∷ []

lost_probe_refuses_forever_example :
    outcomes later_calls
      (execute {E = ℕ} {A = ℕ} 31000 31001 (Outcome.raised Exn.base_exception) tripped).0
    ≡ map (λ _. refusal tripped) later_calls
lost_probe_refuses_forever_example =
    lost_probe_refuses_forever 31000 31001 tripped later_calls IsUncounted.cancelled refl refl
      (omega arith)

-- A world that counts the calls of a function which never succeeds.
abbrev runtime : Runtime ℕ
runtime = record { uniform = λ j w. (j, w); sleep = λ d w. w }

abbrev policy : Policy ℕ
policy = record {
  max_retries = 3;
  base_delay = 1000;
  max_delay = 5000;
  jitter = 100;
  is_retryable = λ e. true;
  is_non_retryable = λ e. false;
}

abbrev failing : Action ℕ ℕ ℕ
failing w = (w + 1, Outcome.raised (Exn.exception 0))
