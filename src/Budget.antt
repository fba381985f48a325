-- ===== src/Budget.antt =====
-- The class `TokenBudget` of noema/budget/token_budget.py. The two fractions are in thousandths, and
-- a quotient is compared with them by multiplying out; token counts are natural numbers.
pub mod Ladder
use Prim.Native.Nat.{max}
use Prim.Native.String.{String}
use noema.Prelude.{ℕ, ◌+◌, ◌-◌, ◌*◌, Bool, true, false, List, [], ◌∷◌, ◌++◌, leb, if◌then◌else◌}

pub data BudgetAction : Type 0 where
  allow degrade skip reject : BudgetAction

pub record TokenBudget : Type 0 where
  pub max_tokens : ℕ
  pub warn_at : ℕ
  pub hard_cap_at : ℕ
  pub used : ℕ
  pub skipped_steps : List String
  pub degraded : Bool

unfoldable pub remaining : TokenBudget → ℕ
remaining b = b.max_tokens - b.used

unfoldable pub record_tokens : ℕ → TokenBudget → TokenBudget
record_tokens tokens b = record b { used = b.used + tokens }

-- `projected / max(max_tokens, 1) >= fraction`
abbrev pub reaches : TokenBudget → ℕ → ℕ → Bool
reaches b fraction projected = leb (fraction * max b.max_tokens 1) (projected * 1000)

unfoldable pub check : ℕ → String → TokenBudget → TokenBudget × BudgetAction
check estimated_cost step_name b =
    if reaches b b.hard_cap_at (b.used + estimated_cost)
    then (record b { skipped_steps = b.skipped_steps ++ step_name ∷ [] }, BudgetAction.reject)
    else if reaches b b.warn_at (b.used + estimated_cost)
    then (record b { degraded = true }, BudgetAction.degrade)
    else (b, BudgetAction.allow)

is_heavy : BudgetAction → Bool
is_heavy BudgetAction.allow = false
is_heavy _ = true

-- The call of `check` inside has the default cost of 1000 and an empty name.
unfoldable pub should_degrade : TokenBudget → TokenBudget × Bool
unfolding is_heavy check
should_degrade b =
    if b.degraded then (b, true) else (let (b', action) = check 1000 "" b in (b', is_heavy action))

unfoldable pub reset : TokenBudget → TokenBudget
reset b = record b { used = 0; skipped_steps = []; degraded = false }
