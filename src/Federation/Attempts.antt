-- ===== src/Federation/Attempts.antt =====
-- How often noema/federation/router.py asks a peer for one sub-task.
use Prim.Native.String.{String, ◌++◌ as append}
use noema.Prelude.{
  ℕ, ◌+◌, ◌≤◌, ◌≡◌, refl, ap, inl, inr, ◌&&◌, not, Bool-cases, Option, none, some, arith,
  Option-cases, lookup, insert,
}
use noema.Resilience.Breaker.{Breaker, Exn, Outcome}
use noema.Resilience.Retry.{resilient_execute}
use noema.Resilience.Retry.Circuit.{calls-resilient_execute}
use noema.Federation.{
  Status, DelegationResult, Config, Router, LocalOutcome, healthy_peers, closed_ones,
  note_in_ledger, hand_over, run_with, end_local, run_local, counted, counting_runtime, policy,
}
use noema.Federation.Delegation.{settle_peer, call_peer, delegate_to, chosen, delegate}

-- The local executor asks no peer.
unfoldable pub AsksNone :
    {W : Type 0} → (W → ℕ) → Option (String → String → W → W × LocalOutcome) → Type 0
AsksNone calls none = Unit
AsksNone {W} calls (some executor) =
    (id description : String) (w : W) → calls (executor id description w).0 ≤ calls w

module _ {W : Type 0} (config : Config W) (calls : W → ℕ)
    (asked : (address description : String) (w : W)
      → calls (config.think address description w).0 ≤ calls w + 1)
    (drawn : (j : ℕ) (w : W) → calls (config.runtime.uniform j w).1 ≡ calls w)
    (slept : (d : ℕ) (w : W) → calls (config.runtime.sleep d w) ≡ calls w)
    (alone : AsksNone calls config.local_executor) where
  world-hand_over :
      (result : DelegationResult) (r : Router W) → (hand_over config result r).0.world ≡ r.world
  unfolding hand_over note_in_ledger
  world-hand_over result r =
      elim (Bool-cases (config.has_ledger && not (config.is_readable result.response))) [
        | inl y ↦ rw (y) refl
        | inr n ↦ elim (Bool-cases config.has_ledger) [
          | inl h ↦ rw (n) (rw (h) refl)
          | inr h ↦ rw (n) (rw (h) refl)
        ]
      ]

  world-end_local :
      (result : DelegationResult) (reason : String) (r : Router W) (x : W × LocalOutcome)
      → (end_local config result reason r x).0.world ≡ x.0
  unfolding end_local
  world-end_local result reason r (w, LocalOutcome.returned v) =
      world-hand_over (record result { error = reason; response = v; status = Status.local })
        (record r { world = w })
  world-end_local result reason r (w, LocalOutcome.raised e) =
      world-hand_over
        (record result { error = append reason (append "; local: " e); status = Status.failed })
        (record r { world = w })
  world-end_local result reason r (w, LocalOutcome.cancelled) = refl

  calls-run_with :
      (executor : Option (String → String → W → W × LocalOutcome))
      → AsksNone calls executor
      → (result : DelegationResult) (reason : String) (r : Router W)
      → calls (run_with config executor result reason r).0.world ≤ calls r.world
  unfolding run_with AsksNone
  calls-run_with none a result reason r = omega (
    arith,
    ap calls (world-hand_over (record result { error = reason; status = Status.failed }) r),
  )
  calls-run_with (some executor) a result reason r =
      let ended = executor result.subtask_id result.description r.world in
      omega (
        arith,
        ap calls (world-end_local result reason r ended),
        a result.subtask_id result.description r.world,
      )

  calls-run_local :
      (result : DelegationResult) (reason : String) (r : Router W)
      → calls (run_local config result reason r).0.world ≤ calls r.world
  unfolding run_local
  calls-run_local result reason r = calls-run_with config.local_executor alone result reason r

  calls-settle_peer :
      (result : DelegationResult) (address : String) (attempts : ℕ) (o : Outcome String String)
      (r : Router W)
      → calls (settle_peer config result address attempts o r).0.world ≤ calls r.world
  unfolding settle_peer
  calls-settle_peer result address attempts (Outcome.returned v) r = omega (
    arith,
    ap calls (
        world-hand_over
          (record result {
            peer = address;
            status = Status.delegated;
            response = v;
            attempts = attempts;
          })
          r),
  )
  calls-settle_peer result address attempts (Outcome.raised (Exn.circuit_breaker_error t)) r =
      calls-run_local result (append "circuit open on " address) r
  calls-settle_peer result address attempts (Outcome.raised Exn.base_exception) r =
      elim (Bool-cases (config.is_expired r.world)) [
        | inl y ↦ rw (y) (calls-run_local result (append "timeout delegating to " address) r)
        | inr n ↦ rw (n) (omega arith)
      ]
  calls-settle_peer result address attempts (Outcome.raised (Exn.exception e)) r =
      calls-run_local result e r

  calls-call_peer :
      (result : DelegationResult) (address : String) (breaker : Breaker) (r : Router W)
      → calls (call_peer config result address breaker r).0.world
        ≤ calls r.world + (config.max_retries + 1)
  unfolding call_peer
  calls-call_peer result address breaker r =
      let called =
        resilient_execute (counting_runtime config) (policy config) (λ s. config.clock s.1)
          (counted config address result.description) (breaker, (0, r.world)) in
      omega (
        arith,
        calls-settle_peer result address called.0.1.0 called.1
            (record r { executors = insert address called.0.0 r.executors; world = called.0.1.1 }),
        calls-resilient_execute (λ s. config.clock s.1) (λ s. calls s.1)
            (counted config address result.description) (counting_runtime config) (policy config)
            (λ j s. drawn j s.1) (λ d s. slept d s.1) (λ s. asked address result.description s.1)
            breaker (0, r.world),
      )

  calls-delegate_to :
      (result : DelegationResult) (address : Option String) (r : Router W)
      → calls (delegate_to config result address r).0.world
        ≤ calls r.world + (config.max_retries + 1)
  unfolding delegate_to
  calls-delegate_to result none r = omega (arith, calls-run_local result "no healthy peers" r)
  calls-delegate_to result (some address) r = elim (Option-cases (lookup address r.executors)) [
    | inl missing ↦
        rw (delegate_to, missing) (omega (arith, calls-run_local result "no healthy peers" r))
    | inr (breaker, found) ↦
        rw (delegate_to, found)
          (calls-call_peer result address breaker (record r { robin = r.robin + 1 }))
  ]

  -- With a local executor that asks no peer, the handling of one sub-task makes at most `max_retries + 1`
  -- calls of peers, in whatever state the breakers are and however the calls end.
  pub calls-delegate :
      (subtask_id description : String) (r : Router W)
      → calls (delegate config subtask_id description r).0.world
        ≤ calls r.world + (config.max_retries + 1)
  unfolding delegate healthy_peers
  calls-delegate subtask_id description r =
      let r' = healthy_peers config r in
      calls-delegate_to
        (record {
          subtask_id = subtask_id;
          description = description;
          peer = "";
          status = Status.pending;
          response = "{}";
          error = "";
          attempts = 0;
        })
        (chosen config r'.robin (closed_ones r'.executors)) r'
