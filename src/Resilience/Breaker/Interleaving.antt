-- ===== src/Resilience/Breaker/Interleaving.antt =====
-- Calls of one `CircuitBreaker` that overlap, and calls that end in no verdict.
use noema.Prelude.{
  ℕ, suc, ◌+◌, ◌≤◌, ◌≡◌, refl, ap, List, [], ◌∷◌, map, Option, some, none, arith, ◌⊎◌, inl, inr,
}
use noema.Resilience.Breaker.{Breaker, CircuitState, Exn, Outcome, admit, execute}

abbrev is_admitted : Option ℕ → ℕ → ℕ
is_admitted none n = suc n
is_admitted (some _) n = n

-- How many of the calls that start at these times, none of which ends meanwhile, are let through.
unfoldable pub admitted : List ℕ → Breaker → ℕ
admitted [] b = 0
admitted (now ∷ ts) b = is_admitted (admit now b).1 (admitted ts (admit now b).0)

admit_half_open :
    (now : ℕ) (b : Breaker)
    → b.state ≡ CircuitState.half_open
    → b.half_open_calls ≤ b.half_open_max
    → let r = admit now b in
      (r.0.state ≡ CircuitState.half_open)
      × (r.0.half_open_max ≡ b.half_open_max)
      × (r.0.half_open_calls ≤ r.0.half_open_max)
      × (is_admitted r.1 b.half_open_calls ≤ r.0.half_open_calls)
unfolding admit
admit_half_open now b s h = ground arith

admitted-half_open :
    (ts : List ℕ) (b : Breaker)
    → b.state ≡ CircuitState.half_open
    → b.half_open_calls ≤ b.half_open_max
    → admitted ts b + b.half_open_calls ≤ b.half_open_max
unfolding admitted
admitted-half_open [] b s h = omega arith
admitted-half_open (now ∷ ts) b s h =
    ground (arith, admit_half_open now b s h, admitted-half_open ts (admit now b).0)

admit_open :
    (now : ℕ) (b : Breaker)
    → b.state ≡ CircuitState.open_
    → let r = admit now b in
      ((r.0 ≡ b) × (is_admitted r.1 0 ≡ 0))
      ⊎ ((r.0.state ≡ CircuitState.half_open)
          × (r.0.half_open_max ≡ b.half_open_max)
          × (r.0.half_open_calls ≤ r.0.half_open_max)
          × (is_admitted r.1 0 ≤ r.0.half_open_calls))
unfolding admit
admit_open now b o = ground arith

-- While no probe has ended, an open breaker lets at most `half_open_max` calls through, whenever
-- they start.
pub admitted-le-half_open_max :
    (ts : List ℕ) (b : Breaker) → b.state ≡ CircuitState.open_ → admitted ts b ≤ b.half_open_max
unfolding admitted
admitted-le-half_open_max [] b o = omega arith
admitted-le-half_open_max (now ∷ ts) b o = elim (admit_open now b o) [
  | inl (kept, refused) ↦ ground (arith, admitted-le-half_open_max ts b o)
  | inr probing ↦ ground (arith, admitted-half_open ts (admit now b).0)
]

-- The calls that follow one another: when each starts, when its function would end, and how.
unfoldable pub outcomes : {E A : Type 0} → List (ℕ × ℕ × Outcome E A) → Breaker → List (Outcome E A)
outcomes [] b = []
outcomes ((now, later, result) ∷ cs) b =
    (execute now later result b).1 ∷ outcomes cs (execute now later result b).0

-- An `await` that ends in neither a normal return nor an `Exception` that the breaker counts.
pub data IsUncounted {E A : Type 0} : Outcome E A → Type 0 where
  cancelled : IsUncounted (Outcome.raised Exn.base_exception)
  nested : (t : ℕ) → IsUncounted (Outcome.raised (Exn.circuit_breaker_error t))

abbrev pub refusal : {E A : Type 0} → Breaker → Outcome E A
refusal b = Outcome.raised (Exn.circuit_breaker_error (b.last_failure_time + b.recovery_timeout))

refused_half_open :
    {E A : Type 0} (now later : ℕ) (result : Outcome E A) (b : Breaker)
    → b.state ≡ CircuitState.half_open
    → b.half_open_max ≤ b.half_open_calls
    → execute now later result b ≡ (b, refusal b)
unfolding execute
refused_half_open now later result b s h = ground arith

outcomes_stuck :
    {E A : Type 0} (cs : List (ℕ × ℕ × Outcome E A)) (b : Breaker)
    → b.state ≡ CircuitState.half_open
    → b.half_open_max ≤ b.half_open_calls
    → outcomes cs b ≡ map (λ _. refusal b) cs
unfolding outcomes
outcomes_stuck [] b s h = refl
outcomes_stuck ((now, later, result) ∷ cs) b s h =
    rw (refused_half_open now later result b s h) (ap (◌∷◌ (refusal b)) (outcomes_stuck cs b s h))

lost_probe :
    {E A : Type 0} (now later : ℕ) {result : Outcome E A} (b : Breaker)
    → IsUncounted result
    → b.state ≡ CircuitState.open_
    → b.half_open_max ≡ 1
    → b.last_failure_time + b.recovery_timeout ≤ now
    → let b' = (execute now later result b).0 in
      (b'.state ≡ CircuitState.half_open)
      × (b'.half_open_max ≤ b'.half_open_calls)
      × (b'.last_failure_time ≡ b.last_failure_time)
      × (b'.recovery_timeout ≡ b.recovery_timeout)
unfolding execute
lost_probe now later b cancelled o m h = ground arith
lost_probe now later b (nested t) o m h = ground arith

-- An open breaker with one probe, whose timeout is over and whose probe ends uncounted (it is
-- cancelled, or raises a `CircuitBreakerError` of another breaker), refuses every later call, at
-- whatever time, with a recovery time that has passed.
pub lost_probe_refuses_forever :
    {E A : Type 0} (now later : ℕ) {result : Outcome E A} (b : Breaker)
    (cs : List (ℕ × ℕ × Outcome E A))
    → IsUncounted result
    → b.state ≡ CircuitState.open_
    → b.half_open_max ≡ 1
    → b.last_failure_time + b.recovery_timeout ≤ now
    → outcomes cs (execute now later result b).0 ≡ map (λ _. refusal b) cs
lost_probe_refuses_forever now later {result} b cs u o m h =
    let (s, full, t, r) = lost_probe now later b u o m h in
    rw (outcomes_stuck cs (execute now later result b).0 s full, t, r)
