-- ===== src/Routing.antt =====
-- The class `ModelRouter` of noema/routing/model_router.py. A provider is an action on a world;
-- which providers could be made, and `str.lower`, are parameters. `select` gives the provider and the
-- model that `_get_provider` is asked for. Costs are cents for a million tokens.
pub mod Fallback
use Prim.Native.String.{String}
use text.Mathlib.Text.{◌==◌ as str_eq}
use noema.Prelude.{
  ℕ, ◌+◌, Bool, true, false, ◌||◌, List, [], ◌∷◌, ◌++◌, map, Option, none, some, if◌then◌else◌,
}
use noema.Resilience.Breaker.{Breaker, Exn, Outcome}
use noema.Resilience.Retry.{Action, through_circuit}

pub record ModelTier : Type 0 where
  pub provider : String
  pub model : String
  pub cost_per_1m_input : ℕ
  pub cost_per_1m_output : ℕ
  pub suitable_for : List String

abbrev pub has : String → List String → Bool
has t [] = false
has t (u ∷ us) = str_eq t u || has t us

unfoldable pub all_tiers : List ModelTier
all_tiers =
    record {
      provider = "openai";
      model = "gpt-4o-mini";
      cost_per_1m_input = 15;
      cost_per_1m_output = 60;
      suitable_for = "trivial" ∷ "simple" ∷ [];
    }
    ∷ record {
      provider = "openai";
      model = "gpt-4o";
      cost_per_1m_input = 250;
      cost_per_1m_output = 1000;
      suitable_for = "moderate" ∷ [];
    }
    ∷ record {
      provider = "anthropic";
      model = "claude-sonnet-4-5-20250929";
      cost_per_1m_input = 300;
      cost_per_1m_output = 1500;
      suitable_for = "complex" ∷ [];
    }
    ∷ record {
      provider = "openai";
      model = "o3";
      cost_per_1m_input = 1000;
      cost_per_1m_output = 4000;
      suitable_for = "extreme" ∷ "security_critical" ∷ [];
    }
    ∷ []

abbrev reverse_onto : {A : Type 0} → List A → List A → List A
reverse_onto [] done = done
reverse_onto (x ∷ xs) done = reverse_onto xs (x ∷ done)

unfoldable pub pick_tier : String → List ModelTier → String × Option String
pick_tier tier_name [] = ("openai", none)
pick_tier tier_name (t ∷ ts) =
    if has tier_name t.suitable_for then (t.provider, some t.model) else pick_tier tier_name ts

unfoldable pub select : (String → String) → String → List String → Bool → String × Option String
unfolding all_tiers pick_tier
select lower complexity tags degraded =
    let tags_lower = map lower tags in
    let tier_name =
      if has "security" tags_lower || has "critical" tags_lower
      then "extreme"
      else lower complexity in
    if degraded then ("openai", none) else pick_tier tier_name (reverse_onto all_tiers [])

-- What `complete` ends with; `interrupted` is a `BaseException`, which it lets through.
pub data Answer (A : Type 0) : Type 0 where
  answered : A → String → Answer A
  all_providers_failed : Answer A
  interrupted : Answer A

unfoldable pub fallback_chain : List String
fallback_chain = "openai" ∷ "anthropic" ∷ "ollama" ∷ "fallback" ∷ []

module _ {W E A : Type 0} (clock : W → ℕ) (is_made : String → Bool)
    (complete_by : String → Action W E A) where
  -- What follows one call: the breakers behind it, the world, and the answer.
  unfoldable pub next_or_stop :
      String
      → (W → (List (String × Breaker) × W) × Answer A)
      → (Breaker × W) × Outcome E A
      → (List (String × Breaker) × W) × Answer A
  next_or_stop name others ((b, w), Outcome.returned v) =
      (((name, b) ∷ [], w), Answer.answered v name)
  next_or_stop name others ((b, w), Outcome.raised Exn.base_exception) =
      (((name, b) ∷ [], w), Answer.interrupted)
  next_or_stop name others ((b, w), Outcome.raised _) =
      let ((bs, w'), a) = others w in (((name, b) ∷ bs, w'), a)

  -- The loop over the chain, with each provider's breaker; it gives the breakers that it has used.
  unfoldable pub complete : List (String × Breaker) → W → (List (String × Breaker) × W) × Answer A
  complete [] w = (([], w), Answer.all_providers_failed)
  complete ((name, b) ∷ chain) w =
      let skipped = complete chain w in
      if is_made name
      then next_or_stop name (complete chain) (through_circuit clock (complete_by name) (b, w))
      else skipped
