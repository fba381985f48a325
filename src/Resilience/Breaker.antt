-- ===== src/Resilience/Breaker.antt =====
-- The class `CircuitBreaker` of noema/resilience/circuit_breaker.py. Times are milliseconds, given
-- by the clock of the caller; the logging calls and the breaker's name, a label, are left out.
-- An asynchronous call has two halves, before and after the awaited function; other calls may run
-- between them.
pub mod Invariant
pub mod Recovery
pub mod Interleaving
use noema.Prelude.{ℕ, ◌+◌, Bool, Option, none, some, leb, if◌then◌else◌, ◌&&◌}

pub data CircuitState : Type 0 where
  closed open_ half_open : CircuitState

abbrev pub is_open : CircuitState → Bool
is_open CircuitState.open_ = Bool.true
is_open _ = Bool.false

abbrev pub is_half_open : CircuitState → Bool
is_half_open CircuitState.half_open = Bool.true
is_half_open _ = Bool.false

pub record Breaker : Type 0 where
  pub failure_threshold : ℕ
  pub recovery_timeout : ℕ
  pub half_open_max : ℕ
  pub state : CircuitState
  pub failure_count : ℕ
  pub success_count : ℕ
  pub last_failure_time : ℕ
  pub half_open_calls : ℕ

-- What an exception is to the handlers: the breaker's own, an `Exception`, or a `BaseException`
-- that no `except Exception` catches, such as a cancellation.
pub data Exn (E : Type 0) : Type 0 where
  circuit_breaker_error : ℕ → Exn E
  exception : E → Exn E
  base_exception : Exn E

pub data Outcome (E A : Type 0) : Type 0 where
  returned : A → Outcome E A
  raised : Exn E → Outcome E A

unfoldable pub init : ℕ → ℕ → ℕ → Breaker
init failure_threshold recovery_timeout half_open_max = record {
  failure_threshold = failure_threshold;
  recovery_timeout = recovery_timeout;
  half_open_max = half_open_max;
  state = CircuitState.closed;
  failure_count = 0;
  success_count = 0;
  last_failure_time = 0;
  half_open_calls = 0;
}

-- The property `state`: reading it moves an open circuit whose timeout is over to half-open.
unfoldable pub observe : ℕ → Breaker → Breaker
observe now b =
    if is_open b.state && leb (b.last_failure_time + b.recovery_timeout) now
    then record b { state = CircuitState.half_open; half_open_calls = 0 }
    else b

unfoldable pub on_success : Breaker → Breaker
on_success b =
    let b' = record b { failure_count = 0; success_count = b.success_count + 1 } in
    if is_half_open b.state then record b' { state = CircuitState.closed } else b'

unfoldable pub on_failure : ℕ → Breaker → Breaker
on_failure now b =
    let b' = record b {
      failure_count = b.failure_count + 1;
      last_failure_time = now;
      success_count = 0;
    } in
    if is_half_open b.state
    then record b' { state = CircuitState.open_ }
    else if leb b.failure_threshold (b.failure_count + 1)
    then record b' { state = CircuitState.open_ }
    else b'

abbrev recovery_at : Breaker → ℕ
recovery_at b = b.last_failure_time + b.recovery_timeout

-- The tests of `execute` on `current_state`; `some t` is a `CircuitBreakerError`.
admit_in : CircuitState → Breaker → Breaker × Option ℕ
admit_in CircuitState.open_ b = (b, some (recovery_at b))
admit_in CircuitState.half_open b =
    if leb b.half_open_max b.half_open_calls
    then (b, some (recovery_at b))
    else (record b { half_open_calls = b.half_open_calls + 1 }, none)
admit_in CircuitState.closed b = (b, none)

-- `execute` up to the `await`.
unfoldable pub admit : ℕ → Breaker → Breaker × Option ℕ
unfolding admit_in observe
admit now b = let b' = observe now b in admit_in b'.state b'

-- `execute` from the `await` on: the handlers' effect on the breaker.
unfoldable pub settle : {E A : Type 0} → ℕ → Outcome E A → Breaker → Breaker
unfolding on_success on_failure
settle now (Outcome.returned v) b = on_success b
settle now (Outcome.raised (Exn.circuit_breaker_error t)) b = b
settle now (Outcome.raised (Exn.exception e)) b = on_failure now b
settle now (Outcome.raised Exn.base_exception) b = b

after_admit : {E A : Type 0} → ℕ → Outcome E A → Breaker × Option ℕ → Breaker × Outcome E A
unfolding settle
after_admit later result (b, none) = (settle later result b, result)
after_admit later result (b, some t) = (b, Outcome.raised (Exn.circuit_breaker_error t))

-- `execute` with no other call in between: the function starts at `now` and ends with `result` at
-- `later`, if it is called.
unfoldable pub execute : {E A : Type 0} → ℕ → ℕ → Outcome E A → Breaker → Breaker × Outcome E A
unfolding admit after_admit
execute now later result b = after_admit later result (admit now b)

unfoldable pub reset : Breaker → Breaker
reset b = record b { state = CircuitState.closed; failure_count = 0; success_count = 0 }
