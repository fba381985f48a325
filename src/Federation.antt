-- ===== src/Federation.antt =====
-- The class `FederationRouter` of noema/federation/router.py over Resilience's breaker and retries. Peers
-- are known by their addresses, parsed before. The sub-tasks of `execute`, which the source runs
-- concurrently, run one after the other here. A `base_exception` that ends the peer's call is the timeout's
-- cancellation, or one from without. The ledger keeps of an entry what depends on the outcome, and as many
-- entries as noema/billing/ledger.py; its file, durations and logging are left out.
pub mod Delegation
pub mod Settling
pub mod Join
pub mod Attempts
mod Tests
use Prim.Native.String.{String, ◌++◌ as append}
use text.Mathlib.Text.{◌==◌ as str_eq}
use noema.Prelude.{
  ℕ, zero, suc, ◌+◌, ◌-◌, ◌%◌, drop, Bool, true, false, ◌&&◌, not, ltb, Result, ok, raise, List, [],
  ◌∷◌, ◌++◌, Option, none, some, if◌then◌else◌, length, get_elem?, lookup, insert, map,
}
use noema.Resilience.Breaker.{Breaker, Exn, Outcome, is_open, observe, init as new_breaker}
use noema.Resilience.Retry.{Policy, Runtime, Action, resilient_execute}

pub data Status : Type 0 where
  pending delegated local failed : Status

pub record DelegationResult : Type 0 where
  pub subtask_id : String
  pub description : String
  pub peer : String
  pub status : Status
  pub response : String
  pub error : String
  pub attempts : ℕ

pub record LedgerEntry : Type 0 where
  pub task_id : String
  pub kind : String
  pub peer : String

-- The local executor returns, raises an `Exception`, or is cancelled.
pub data LocalOutcome : Type 0 where
  returned : String → LocalOutcome
  raised : String → LocalOutcome
  cancelled : LocalOutcome

-- What may escape from `delegate`.
pub data Escape : Type 0 where
  value_error cancelled_error : Escape

pub record Config (W : Type 0) : Type 0 where
  -- Is a ledger given?
  pub has_ledger : Bool
  pub max_entries : ℕ
  -- Do `int` and `float` accept the numbers of a response?
  pub is_readable : String → Bool
  -- Has the time of `asyncio.timeout` run out?
  pub is_expired : W → Bool
  pub max_retries : ℕ
  pub base_delay : ℕ
  pub max_delay : ℕ
  pub runtime : Runtime W
  pub clock : W → ℕ
  -- `client.think` of the peer, and the local executor, if there is one.
  pub think : String → String → W → W × Outcome String String
  pub local_executor : Option (String → String → W → W × LocalOutcome)

pub record Router (W : Type 0) : Type 0 where
  -- The breaker of each peer's executor.
  pub executors : List (String × Breaker)
  pub robin : ℕ
  pub ledger : List LedgerEntry
  pub world : W

-- `FederationRouter.__init__`
abbrev pub breakers_of : ℕ → ℕ → List String → List (String × Breaker)
breakers_of failure_threshold recovery_timeout [] = []
breakers_of failure_threshold recovery_timeout (a ∷ peers) =
    (a, new_breaker failure_threshold recovery_timeout 1)
    ∷ breakers_of failure_threshold recovery_timeout peers

-- Only an `Exception` is retried, and an open circuit is not.
abbrev pub retries_of : Exn String → Bool
retries_of (Exn.circuit_breaker_error t) = true
retries_of (Exn.exception e) = true
retries_of Exn.base_exception = false

abbrev pub fails_fast : Exn String → Bool
fails_fast (Exn.circuit_breaker_error t) = true
fails_fast (Exn.exception e) = false
fails_fast Exn.base_exception = false

-- Reading the state of each circuit may move it to half-open.
unfoldable pub observe_all : ℕ → List (String × Breaker) → List (String × Breaker)
observe_all now [] = []
observe_all now ((a, b) ∷ executors) = (a, observe now b) ∷ observe_all now executors

unfoldable pub closed_ones : List (String × Breaker) → List String
closed_ones [] = []
closed_ones ((a, b) ∷ executors) =
    let rest = closed_ones executors in if is_open b.state then rest else a ∷ rest

module _ {W : Type 0} (config : Config W) where
  -- The list of `healthy_peers` is `closed_ones` of these breakers.
  unfoldable pub healthy_peers : Router W → Router W
  healthy_peers r = record r { executors = observe_all (config.clock r.world) r.executors }

  abbrev pub policy : Policy String
  policy = record {
    max_retries = config.max_retries;
    base_delay = config.base_delay;
    max_delay = config.max_delay;
    jitter = 200;
    is_retryable = retries_of;
    is_non_retryable = fails_fast;
  }

  -- `_counted`, on a world with the counter `attempts`.
  abbrev pub counted : String → String → Action (ℕ × W) String String
  counted address description (attempts, w) =
      let (w', result) = config.think address description w in ((attempts + 1, w'), result)

  abbrev pub counting_runtime : Runtime (ℕ × W)
  counting_runtime = record {
    uniform = λ j s. let (u, w') = config.runtime.uniform j s.1 in (u, (s.0, w'));
    sleep = λ d s. (s.0, config.runtime.sleep d s.1);
  }

  unfoldable pub kind_of : Status → String
  kind_of Status.delegated = "subtask"
  kind_of Status.local = "delegation-local"
  kind_of Status.failed = "delegation-failed"
  kind_of Status.pending = "delegation-pending"

  -- The end of the ledger's `record`.
  unfoldable pub keep_last : List LedgerEntry → List LedgerEntry
  keep_last entries =
      if ltb config.max_entries (length entries)
      then drop (length entries - config.max_entries) entries
      else entries

  unfoldable pub note_in_ledger : DelegationResult → Router W → Router W
  unfolding kind_of keep_last
  note_in_ledger result r =
      if config.has_ledger
      then record r {
        ledger = keep_last (
            r.ledger
            ++ record {
              task_id = result.subtask_id;
              kind = kind_of result.status;
              peer = result.peer;
            }
              ∷ []);
      }
      else r

  -- `self._record(result, started)` and `return result`.
  unfoldable pub hand_over : DelegationResult → Router W → Router W × Result Escape DelegationResult
  unfolding note_in_ledger
  hand_over result r =
      if config.has_ledger && not (config.is_readable result.response)
      then (r, raise Escape.value_error)
      else (note_in_ledger result r, ok result)

  -- The end of `_run_local`, once the local executor has ended.
  unfoldable pub end_local :
      DelegationResult
      → String
      → Router W
      → W × LocalOutcome
      → Router W × Result Escape DelegationResult
  unfolding hand_over
  end_local result reason r (w, LocalOutcome.returned v) =
      hand_over (record result { error = reason; response = v; status = Status.local })
        (record r { world = w })
  end_local result reason r (w, LocalOutcome.raised e) =
      hand_over
        (record result { error = append reason (append "; local: " e); status = Status.failed })
        (record r { world = w })
  end_local result reason r (w, LocalOutcome.cancelled) =
      (record r { world = w }, raise Escape.cancelled_error)

  unfoldable pub run_with :
      Option (String → String → W → W × LocalOutcome)
      → DelegationResult
      → String
      → Router W
      → Router W × Result Escape DelegationResult
  unfolding end_local hand_over
  run_with none result reason r =
      hand_over (record result { error = reason; status = Status.failed }) r
  run_with (some executor) result reason r =
      end_local result reason r (executor result.subtask_id result.description r.world)

  unfoldable pub run_local :
      DelegationResult → String → Router W → Router W × Result Escape DelegationResult
  unfolding run_with
  run_local result reason r = run_with config.local_executor result reason r
