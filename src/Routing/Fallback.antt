-- ===== src/Routing/Fallback.antt =====
-- The choice of a model, and the chain of providers, of noema/routing/model_router.py.
use Prim.Native.String.{String}
use noema.Prelude.{
  ℕ, ◌+◌, ◌≤◌, ◌≡◌, refl, arith, Bool, true, false, ◌||◌, Bool-cases, inl, inr, List, [], ◌∷◌, map,
  length, some,
}
use noema.Resilience.Breaker.{Breaker, Exn, Outcome}
use noema.Resilience.Retry.{Action, through_circuit}
use noema.Resilience.Retry.Circuit.{calls-through_circuit}
use noema.Routing.{Answer, has, all_tiers, pick_tier, select, next_or_stop, complete}

-- A task with a security or a critical tag gets the strongest model whatever its complexity is,
-- unless the budget is degraded.
pub select-security :
    (lower : String → String) (complexity : String) (tags : List String)
    → (has "security" (map lower tags) || has "critical" (map lower tags)) ≡ true
    → select lower complexity tags false ≡ ("openai", some "o3")
unfolding select pick_tier all_tiers
select-security lower complexity tags h = rw (select, h) refl

module _ {W E A : Type 0} (clock : W → ℕ) (is_made : String → Bool)
    (complete_by : String → Action W E A) (calls : W → ℕ)
    (once : (name : String) (w : W) → calls (complete_by name w).0 ≤ calls w + 1) where
  calls-next_or_stop :
      (name : String) (others : W → (List (String × Breaker) × W) × Answer A)
      (r : (Breaker × W) × Outcome E A) (n : ℕ)
      → ((w : W) → calls (others w).0.1 ≤ calls w + n)
      → calls (next_or_stop clock is_made complete_by name others r).0.1 ≤ calls r.0.1 + n
  unfolding next_or_stop
  calls-next_or_stop name others ((b, w), Outcome.returned v) n h = omega arith
  calls-next_or_stop name others ((b, w), Outcome.raised Exn.base_exception) n h = omega arith
  calls-next_or_stop name others ((b, w), Outcome.raised (Exn.exception e)) n h = h w
  calls-next_or_stop name others ((b, w), Outcome.raised (Exn.circuit_breaker_error t)) n h = h w

  -- Where a provider counts one call at most, one request makes at most as many calls as the chain
  -- has providers, in whatever states their breakers are.
  pub calls-complete :
      (chain : List (String × Breaker)) (w : W)
      → calls (complete clock is_made complete_by chain w).0.1 ≤ calls w + length chain
  unfolding complete
  calls-complete [] w = omega arith
  calls-complete ((name, b) ∷ chain) w = elim (Bool-cases (is_made name)) [
    | inr absent ↦ rw (complete, absent) (omega (arith, calls-complete chain w))
    | inl made ↦
        rw (complete, made)
          (omega (
            arith,
            calls-next_or_stop name (complete clock is_made complete_by chain)
                (through_circuit clock (complete_by name) (b, w)) (length chain)
                (calls-complete chain),
            calls-through_circuit clock calls (complete_by name) (once name) (b, w),
          ))
  ]
