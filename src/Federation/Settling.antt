-- ===== src/Federation/Settling.antt =====
-- How `delegate` of noema/federation/router.py settles one sub-task, and what the ledger notes of it.
use Prim.Native.String.{String, ◌++◌ as append}
use Prim.Native.Nat.{min}
use noema.Prelude.{
  ℕ, zero, suc, ◌+◌, ◌-◌, ◌≡◌, refl, ap, ◌∙◌, inl, inr, Bool, true, false, List, [], ◌∷◌, Option,
  none, some, arith, Bool-cases, Option-cases, length, length-append, lookup, insert, ltb, ltb→lt,
  drop, ◌++◌, ◌&&◌, not, Result, ok,
}
use noema.Resilience.Breaker.{Breaker, Exn, Outcome}
use noema.Resilience.Retry.{resilient_execute}
use noema.Federation.{
  Status, DelegationResult, Config, Router, LocalOutcome, LedgerEntry, Escape, keep_last,
  healthy_peers, closed_ones, note_in_ledger, hand_over, run_with, end_local, run_local, counted,
  counting_runtime, policy,
}
use noema.Federation.Delegation.{settle_peer, call_peer, delegate_to, chosen, delegate}

abbrev pub is_settled : Status → Bool
is_settled Status.pending = false
is_settled _ = true

-- The length of a ledger of `n` entries after `k` more.
abbrev pub noted : Bool → ℕ → ℕ → ℕ → ℕ
noted true max_entries n k = min max_entries (n + k)
noted false max_entries n k = n

-- The local executor is not cancelled.
abbrev pub is_cancelled : LocalOutcome → Bool
is_cancelled LocalOutcome.cancelled = true
is_cancelled _ = false

unfoldable pub Ends : {W : Type 0} → Option (String → String → W → W × LocalOutcome) → Type 0
Ends none = Unit
Ends {W} (some executor) =
    (id description : String) (w : W) → is_cancelled (executor id description w).1 ≡ false

pub noted-more :
    (has_ledger : Bool) (max_entries n m k : ℕ)
    → m ≡ noted has_ledger max_entries n 1
    → noted has_ledger max_entries m k ≡ noted has_ledger max_entries n (suc k)
noted-more true max_entries n m k h = omega (arith, h)
noted-more false max_entries n m k h = h

length-drop : (n : ℕ) (entries : List LedgerEntry) → length (drop n entries) ≡ length entries - n
length-drop zero entries = omega arith
length-drop (suc n) [] = omega arith
length-drop (suc n) (e ∷ entries) = omega (arith, length-drop n entries)

module _ {W : Type 0} (config : Config W)
    (readable : (response : String) → config.is_readable response ≡ true)
    (expired : (w : W) → config.is_expired w ≡ true) (ends : Ends config.local_executor) where
  -- One sub-task has been settled, from `start` on.
  unfoldable pub Settles :
      String → String → Router W → Router W × Result Escape DelegationResult → Type 0
  Settles id description start ended =
      (x : DelegationResult) × (ended.1 ≡ ok x)
      × (x.subtask_id ≡ id)
      × (x.description ≡ description)
      × (is_settled x.status ≡ true)
      × (length ended.0.ledger ≡ noted config.has_ledger config.max_entries (length start.ledger) 1)

  length-keep_last :
      (entries : List LedgerEntry)
      → length (keep_last config entries) ≡ min config.max_entries (length entries)
  unfolding keep_last
  length-keep_last entries = elim (Bool-cases (ltb config.max_entries (length entries))) [
    | inl y ↦ rw (y) (
        omega (
          arith,
          ltb→lt config.max_entries (length entries) y,
          length-drop (length entries - config.max_entries) entries,
        ))
    | inr n ↦ rw (n) (ground (arith, n))
  ]

  length-note_in_ledger :
      (result : DelegationResult) (r : Router W)
      → length (note_in_ledger config result r).ledger
        ≡ noted config.has_ledger config.max_entries (length r.ledger) 1
  unfolding note_in_ledger
  length-note_in_ledger result r = elim (Bool-cases config.has_ledger) [
    | inl y ↦ rw (y) (
        length-keep_last (r.ledger ++ _ ∷ [])
        ∙ ap (min config.max_entries) (length-append r.ledger (_ ∷ [])))
    | inr n ↦ rw (n) refl
  ]

  hand_over-Settles :
      (result : DelegationResult) (r : Router W)
      → is_settled result.status ≡ true
      → Settles result.subtask_id result.description r (hand_over config result r)
  unfolding hand_over Settles
  hand_over-Settles result r h =
      let accepted : (config.has_ledger && not (config.is_readable result.response)) ≡ false =
        rw (readable result.response)
          (elim (Bool-cases config.has_ledger) [ inl y ↦ rw (y) refl | inr n ↦ rw (n) refl ]) in
      rw (accepted) (result, refl, refl, refl, h, length-note_in_ledger result r)

  end_local-Settles :
      (result : DelegationResult) (reason : String) (r : Router W) (x : W × LocalOutcome)
      → is_cancelled x.1 ≡ false
      → Settles result.subtask_id result.description r (end_local config result reason r x)
  unfolding end_local Settles
  end_local-Settles result reason r (w, LocalOutcome.returned v) h =
      unfold Settles in
      hand_over-Settles (record result { error = reason; response = v; status = Status.local })
        (record r { world = w }) refl
  end_local-Settles result reason r (w, LocalOutcome.raised e) h =
      unfold Settles in
      hand_over-Settles
        (record result { error = append reason (append "; local: " e); status = Status.failed })
        (record r { world = w }) refl
  end_local-Settles result reason r (w, LocalOutcome.cancelled) h = absurd cc

  run_with-Settles :
      (executor : Option (String → String → W → W × LocalOutcome))
      → Ends executor
      → (result : DelegationResult) (reason : String) (r : Router W)
      → Settles result.subtask_id result.description r (run_with config executor result reason r)
  unfolding run_with Ends
  run_with-Settles none e result reason r =
      unfold Settles in
      hand_over-Settles (record result { error = reason; status = Status.failed }) r refl
  run_with-Settles (some executor) e result reason r =
      end_local-Settles result reason r (executor result.subtask_id result.description r.world)
        (e result.subtask_id result.description r.world)

  run_local-Settles :
      (result : DelegationResult) (reason : String) (r : Router W)
      → Settles result.subtask_id result.description r (run_local config result reason r)
  unfolding run_local
  run_local-Settles result reason r = run_with-Settles config.local_executor ends result reason r

  settle_peer-Settles :
      (result : DelegationResult) (address : String) (attempts : ℕ) (o : Outcome String String)
      (r : Router W)
      → Settles result.subtask_id result.description r
          (settle_peer config result address attempts o r)
  unfolding settle_peer
  settle_peer-Settles result address attempts (Outcome.returned v) r =
      hand_over-Settles
        (record result {
          peer = address;
          status = Status.delegated;
          response = v;
          attempts = attempts;
        })
        r refl
  settle_peer-Settles result address attempts (Outcome.raised (Exn.circuit_breaker_error t)) r =
      run_local-Settles result (append "circuit open on " address) r
  settle_peer-Settles result address attempts (Outcome.raised Exn.base_exception) r =
      rw (expired r.world) (run_local-Settles result (append "timeout delegating to " address) r)
  settle_peer-Settles result address attempts (Outcome.raised (Exn.exception e)) r =
      run_local-Settles result e r

  call_peer-Settles :
      (result : DelegationResult) (address : String) (breaker : Breaker) (r : Router W)
      → Settles result.subtask_id result.description r (call_peer config result address breaker r)
  unfolding call_peer Settles
  call_peer-Settles result address breaker r =
      let called =
        resilient_execute (counting_runtime config) (policy config) (λ s. config.clock s.1)
          (counted config address result.description) (breaker, (0, r.world)) in
      unfold Settles in
      settle_peer-Settles result address called.0.1.0 called.1
        (record r { executors = insert address called.0.0 r.executors; world = called.0.1.1 })

  delegate_to-Settles :
      (result : DelegationResult) (address : Option String) (r : Router W)
      → Settles result.subtask_id result.description r (delegate_to config result address r)
  unfolding delegate_to
  delegate_to-Settles result none r = run_local-Settles result "no healthy peers" r
  delegate_to-Settles result (some address) r = elim (Option-cases (lookup address r.executors)) [
    | inl missing ↦ rw (delegate_to, missing) (run_local-Settles result "no healthy peers" r)
    | inr (breaker, found) ↦
        rw (delegate_to, found)
          (unfold Settles in
            call_peer-Settles result address breaker (record r { robin = r.robin + 1 }))
  ]

  pub delegate-Settles :
      (id description : String) (r : Router W)
      → Settles id description r (delegate config id description r)
  unfolding delegate Settles healthy_peers
  delegate-Settles id description r =
      let r' = healthy_peers config r in
      unfold Settles in
      delegate_to-Settles
        (record {
          subtask_id = id;
          description = description;
          peer = "";
          status = Status.pending;
          response = "{}";
          error = "";
          attempts = 0;
        })
        (chosen config r'.robin (closed_ones r'.executors)) r'
