-- ===== src/Budget/Ladder.antt =====
-- The verdicts of `TokenBudget.check`.
use Prim.Native.Nat.{max}
use Prim.Native.String.{String}
use noema.Prelude.{
  ◌⊎◌, inl, inr, leb, Bool-cases, ℕ, ◌+◌, ◌*◌, ◌≤◌, ◌<◌, ◌≡◌, ◌≢◌, ◌++◌, ◌∷◌, [], ◌⊎◌, inl, inr,
  arith,
}
use noema.Budget.{BudgetAction, TokenBudget, check, record_tokens}

-- How severe a verdict is.
abbrev pub severity : BudgetAction → ℕ
severity BudgetAction.allow = 0
severity BudgetAction.degrade = 1
severity BudgetAction.skip = 2
severity BudgetAction.reject = 3

-- A dearer step never gets a milder verdict, and so does the same step once more has been used, if
-- the warning fraction is not above the hard cap.
pub check_monotone :
    (b : TokenBudget) (cost cost' spent : ℕ) (name name' : String)
    → b.warn_at ≤ b.hard_cap_at
    → cost ≤ cost'
    → severity (check cost name b).1 ≤ severity (check cost' name' (record_tokens spent b)).1
unfolding check record_tokens
check_monotone b cost cost' spent name name' w c = ground arith

-- A verdict is never `skip`; a rejection is exactly what reaches the hard cap, and it notes the
-- step's name; no verdict changes what has been used.
pub check_verdicts :
    (b : TokenBudget) (cost : ℕ) (name : String)
    → let r = check cost name b in
      (r.1 ≢ BudgetAction.skip)
      × (r.0.used ≡ b.used)
      × (((b.hard_cap_at * max b.max_tokens 1 ≤ (b.used + cost) * 1000)
            × (r.1 ≡ BudgetAction.reject)
            × (r.0.skipped_steps ≡ b.skipped_steps ++ name ∷ []))
          ⊎ (((b.used + cost) * 1000 < b.hard_cap_at * max b.max_tokens 1)
              × (r.1 ≢ BudgetAction.reject)
              × (r.0.skipped_steps ≡ b.skipped_steps)))
unfolding check
check_verdicts b cost name =
    elim (Bool-cases (leb (b.hard_cap_at * max b.max_tokens 1) ((b.used + cost) * 1000))) [
      | inl y ↦ (ground arith, ground arith, inl (ground arith))
      | inr n ↦ (ground arith, ground arith, inr (ground arith))
    ]
