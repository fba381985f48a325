-- ===== src/Reasoning/Step/Spending.antt =====
-- What a reasoning step costs, and what the token budget can stop.
use Prim.Native.String.{String}
use noema.Budget.{BudgetAction, TokenBudget, check, reaches, record_tokens}
use noema.Prelude.{
  ℕ, ◌+◌, ◌/◌, ◌≡◌, refl, true, false, [], ◌∷◌, ◌++◌, length, Option-cases, length-append, Option,
  none, some, ap, ◌∙◌, Bool-cases, inl, inr,
}
use noema.Reasoning.Step.{
  Setting, Progress, Provider, Response, is_blank, execute_step, ask, finish, choose, with_budget,
  spend, heed,
}

-- The tokens used so far, where there is a budget.
unfoldable pub spent : Option TokenBudget → ℕ
spent none = 0
spent (some b) = b.used

length-ask :
    (s : Setting)
    → (provider : Provider) → (budget : Option TokenBudget) → (p : Progress)
    → length (ask s provider budget p).asked ≡ length p.asked + 1
unfolding ask finish
length-ask s provider budget p =
    elim (Option-cases (s.complete provider p.step.system_prompt p.step.user_prompt)) [
      | inl n ↦ rw (ask, n) (length-append p.asked (provider ∷ []))
      | inr (r, e) ↦ rw (ask, e) (length-append p.asked (provider ∷ []))
    ]

length-with_budget :
    (s : Setting)
    → (b : TokenBudget) → (p : Progress) → length (with_budget s b p).asked ≡ length p.asked + 1
unfolding with_budget heed check
length-with_budget s b p =
    let cost = (s.length_of p.step.system_prompt + s.length_of p.step.user_prompt) / 2 in
    elim (Bool-cases (reaches b b.hard_cap_at (b.used + cost))) [
      | inl y ↦ rw (check, y) (length-ask s _ _ p)
      | inr n ↦ elim (Bool-cases (reaches b b.warn_at (b.used + cost))) [
        | inl y ↦ rw (check, n, y) (length-ask s _ _ p)
        | inr m ↦ rw (check, n, m) (length-ask s _ _ p)
      ]
    ]

-- A step whose prompt is not blank asks a model exactly once, whatever the budget is: no verdict of
-- the budget keeps the step from running.
pub execute_step-asks_once :
    (s : Setting)
    → (prompt : String) → (p : Progress) → is_blank prompt ≡ false
    → length (execute_step s prompt p).asked ≡ length p.asked + 1
unfolding execute_step
execute_step-asks_once s prompt p e =
    let p' = record p { step = record p.step { user_prompt = prompt } } in
    elim (Option-cases p.budget) [
      | inl n ↦ rw (e, n) (length-ask s _ _ p')
      | inr (b, h) ↦ rw (e, h) (length-with_budget s b p')
    ]

check_over_cap :
    (cost : ℕ)
    → (name : String) → (b : TokenBudget) → reaches b b.hard_cap_at (b.used + cost) ≡ true
    → check cost name b
      ≡ (record b { skipped_steps = b.skipped_steps ++ name ∷ [] }, BudgetAction.reject)
unfolding check
check_over_cap cost name b over = rw (over) refl

choose_usual :
    (s : Setting)
    → (b : TokenBudget) → s.has_router ≡ false
    → choose s.has_router b ≡ (b, Provider.usual)
unfolding choose
choose_usual s b e = rw (e) refl

with_budget-over_cap :
    (s : Setting)
    → (b : TokenBudget) → (p : Progress) → s.has_router ≡ false
    → reaches b b.hard_cap_at
        (b.used + (s.length_of p.step.system_prompt + s.length_of p.step.user_prompt) / 2)
      ≡ true
    → with_budget s b p
      ≡ ask s Provider.usual
          (some (record b { skipped_steps = b.skipped_steps ++ p.step.name ∷ [] }))
          p
unfolding with_budget heed
with_budget-over_cap s b p no_router over =
    ap (λ c. heed s c p) (check_over_cap _ _ b over)
    ∙ ap (λ c. ask s c.1 (some c.0) p) (choose_usual s _ no_router)

ask-answered :
    (s : Setting)
    → (provider : Provider) → (b : TokenBudget) → (p : Progress) → (r : Response)
    → s.complete provider p.step.system_prompt p.step.user_prompt ≡ some r
    → (ask s provider (some b) p).budget ≡ some (record b { used = b.used + r.tokens_used })
unfolding ask finish spend record_tokens
ask-answered s provider b p r answered = rw (ask, answered) refl

-- Where the step's estimated cost reaches the hard cap, the prompt is not blank, no router is set and
-- the model answers, the budget records the step as skipped and also charges it with the answer's
-- tokens.
pub execute_step-over_cap :
    (s : Setting)
    → (prompt : String) → (p : Progress) → (b : TokenBudget) → (r : Response)
    → is_blank prompt ≡ false
    → p.budget ≡ some b
    → s.has_router ≡ false
    → s.complete Provider.usual p.step.system_prompt prompt ≡ some r
    → reaches b b.hard_cap_at (b.used + (s.length_of p.step.system_prompt + s.length_of prompt) / 2)
      ≡ true
    → (execute_step s prompt p).budget
      ≡ some (record b {
        skipped_steps = b.skipped_steps ++ p.step.name ∷ [];
        used = b.used + r.tokens_used;
      })
unfolding execute_step
execute_step-over_cap s prompt p b r e h no_router answered over =
    let p' = record p { step = record p.step { user_prompt = prompt } } in
    rw (e, h)
      (rw (with_budget-over_cap s b p' no_router over)
        (ask-answered s Provider.usual _ p' r answered))
