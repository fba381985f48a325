-- ===== src/Federation/Delegation.antt =====
-- `delegate` and `execute` of noema/federation/router.py: the choice of a peer, its call, and the join.
use Prim.Native.String.{String, ◌++◌ as append}
use text.Mathlib.Text.{◌==◌ as str_eq}
use noema.Prelude.{
  ℕ, suc, ◌+◌, ◌%◌, Bool, true, false, List, [], ◌∷◌, Option, none, some, if◌then◌else◌, length,
  get_elem?, lookup, insert, Result, ok, raise,
}
use noema.Resilience.Breaker.{Breaker, Exn, Outcome}
use noema.Resilience.Retry.{resilient_execute}
use noema.Federation.{
  Status, DelegationResult, Escape, Config, Router, closed_ones, healthy_peers, policy, counted,
  counting_runtime, hand_over, run_local,
}

module _ {W : Type 0} (config : Config W) where
  -- What `delegate` does with the outcome of the executor.
  unfoldable pub settle_peer :
      DelegationResult
      → String
      → ℕ
      → Outcome String String
      → Router W
      → Router W × Result Escape DelegationResult
  unfolding run_local hand_over
  settle_peer result address attempts (Outcome.returned v) r =
      hand_over config
        (record result {
          peer = address;
          status = Status.delegated;
          response = v;
          attempts = attempts;
        })
        r
  settle_peer result address attempts (Outcome.raised (Exn.circuit_breaker_error t)) r =
      run_local config result (append "circuit open on " address) r
  settle_peer result address attempts (Outcome.raised Exn.base_exception) r =
      if config.is_expired r.world
      then run_local config result (append "timeout delegating to " address) r
      else (r, raise Escape.cancelled_error)
  settle_peer result address attempts (Outcome.raised (Exn.exception e)) r =
      run_local config result e r

  -- The call of the peer's executor, and its breaker stored again.
  unfoldable pub call_peer :
      DelegationResult → String → Breaker → Router W → Router W × Result Escape DelegationResult
  unfolding settle_peer
  call_peer result address breaker r =
      let ((breaker', (attempts, w)), outcome) =
        resilient_execute (counting_runtime config) (policy config) (λ s. config.clock s.1)
          (counted config address result.description) (breaker, (0, r.world)) in
      settle_peer result address attempts outcome
        (record r { executors = insert address breaker' r.executors; world = w })

  -- `self._executors[address]` of a healthy peer, so that it is there.
  unfoldable pub delegate_to :
      DelegationResult → Option String → Router W → Router W × Result Escape DelegationResult
  unfolding call_peer run_local
  delegate_to result none r = run_local config result "no healthy peers" r
  delegate_to result (some address) r = elim (lookup address r.executors) [
    | none ↦ run_local config result "no healthy peers" r
    | some breaker ↦ call_peer result address breaker (record r { robin = r.robin + 1 })
  ]

  abbrev pub chosen : ℕ → List String → Option String
  chosen robin [] = none
  chosen robin (a ∷ more) = get_elem? (a ∷ more) (robin % length (a ∷ more))

  unfoldable pub delegate : String → String → Router W → Router W × Result Escape DelegationResult
  unfolding delegate_to healthy_peers
  delegate subtask_id description r =
      let r' = healthy_peers config r in
      let result : DelegationResult = record {
        subtask_id = subtask_id;
        description = description;
        peer = "";
        status = Status.pending;
        response = "{}";
        error = "";
        attempts = 0;
      } in
      delegate_to result (chosen r'.robin (closed_ones r'.executors)) r'

  -- `str(i)` is the parameter `show`.
  abbrev pub label : (ℕ → String) → String → ℕ → String
  label show task_id i = if str_eq task_id "" then show i else append task_id (append ":" (show i))

  -- The first exception ends `gather`, and the other sub-tasks go on.
  abbrev pub gather :
      Result Escape DelegationResult
      → Result Escape (List DelegationResult)
      → Result Escape (List DelegationResult)
  gather (raise e) results = raise e
  gather (ok x) (raise e) = raise e
  gather (ok x) (ok xs) = ok (x ∷ xs)

  unfoldable pub delegate_each :
      (ℕ → String) → ℕ → List String → Router W → Router W × Result Escape (List DelegationResult)
  unfolding delegate
  delegate_each name i [] r = (r, ok [])
  delegate_each name i (description ∷ subtasks) r =
      let (r', result) = delegate (name i) description r in
      let (r'', results) = delegate_each name (i + 1) subtasks r' in (r'', gather result results)

pub record Summary : Type 0 where
  pub subtasks : List DelegationResult
  pub total : ℕ
  pub delegated : ℕ
  pub local : ℕ
  pub failed : ℕ

abbrev pub is_delegated : Status → Bool
is_delegated Status.delegated = true
is_delegated _ = false

abbrev pub is_local : Status → Bool
is_local Status.local = true
is_local _ = false

abbrev pub is_failed : Status → Bool
is_failed Status.failed = true
is_failed _ = false

unfoldable pub count : (Status → Bool) → List DelegationResult → ℕ
count test [] = 0
count test (r ∷ rs) = let rest = count test rs in if test r.status then suc rest else rest

unfoldable pub summarise : List DelegationResult → Summary
unfolding count
summarise results = record {
  subtasks = results;
  total = length results;
  delegated = count is_delegated results;
  local = count is_local results;
  failed = count is_failed results;
}

-- `if not subtasks`
abbrev pub subtasks_or : String → List String → List String
subtasks_or title [] = title ∷ []
subtasks_or title (s ∷ ss) = s ∷ ss

abbrev pub summarise_all : Result Escape (List DelegationResult) → Result Escape Summary
summarise_all (ok results) = ok (summarise results)
summarise_all (raise e) = raise e

unfoldable pub execute :
    {W : Type 0}
    → Config W
    → (ℕ → String)
    → String
    → List String
    → String
    → Router W
    → Router W × Result Escape Summary
unfolding summarise delegate_each
execute config show title subtasks task_id r =
    let (r', results) =
      delegate_each config (label config show task_id) 0 (subtasks_or title subtasks) r in
    (r', summarise_all results)
