-- ===== src/Reasoning/Step.antt =====
-- `ChainOfThought._execute_step` of noema/core/chain_of_thought.py. The model and the length of a text
-- are parameters; a confidence is in tenths, and no tokens reported is 0.
pub mod Spending
use Prim.Native.String.{String, ◌++◌ as append}
use text.Mathlib.Text.{◌==◌ as str_eq}
use noema.Budget.{BudgetAction, TokenBudget, check, should_degrade, record_tokens}
use noema.Prelude.{
  ℕ, zero, suc, ◌+◌, ◌/◌, Bool, true, false, not, List, [], ◌∷◌, ◌++◌, length, Option, none, some,
  ◌==◌, ◌&&◌, if◌then◌else◌,
}

pub data StepStatus : Type 0 where
  pending running completed failed skipped : StepStatus

pub record Step : Type 0 where
  pub name : String
  pub system_prompt : String
  pub user_prompt : String
  pub result : String
  pub status : StepStatus
  pub confidence : ℕ
  pub tokens_used : ℕ

pub record Response : Type 0 where
  pub content : String
  pub finish_reason : String
  pub tokens_used : ℕ

-- `self.llm`, or the provider that the router selects.
pub data Provider : Type 0 where
  usual routed : Provider

pub record ThoughtNode : Type 0 where
  pub step : ℕ
  pub name : String
  pub response : String
  pub confidence : ℕ

-- The step, the budget and the chain; the providers asked so far; and whether a call has raised.
pub record Progress : Type 0 where
  pub step : Step
  pub budget : Option TokenBudget
  pub chain : List ThoughtNode
  pub asked : List Provider
  pub has_raised : Bool

pub record Setting : Type 0 where
  pub length_of : String → ℕ
  pub has_router : Bool
  pub complete : Provider → String → String → Option Response

abbrev pub is_blank : String → Bool
is_blank t = str_eq t ""

unfoldable pub confidence_of : Response → ℕ
confidence_of r =
    if is_blank r.content
    then 0
    else if str_eq r.finish_reason "length"
    then 4
    else if str_eq r.finish_reason "stop"
    then 7
    else 5

unfoldable pub choose : Bool → TokenBudget → TokenBudget × Provider
choose has_router b =
    if has_router
    then (let (b', degraded) = should_degrade b in
        (b', if degraded then Provider.routed else Provider.usual))
    else (b, Provider.usual)

-- `if budget and response.tokens_used: budget.record(...)`
unfoldable pub spend : ℕ → Option TokenBudget → Option TokenBudget
spend tokens none = none
spend tokens (some b) = some (record_tokens tokens b)

unfoldable pub finish : Response → Option TokenBudget → Progress → Progress
unfolding confidence_of spend
finish r budget p =
    let sure = confidence_of r in
    record p {
      step = record p.step { result = r.content; tokens_used = r.tokens_used; confidence = sure };
      budget = spend r.tokens_used budget;
      chain =
          p.chain
          ++ record {
            step = length p.chain + 1;
            name = p.step.name;
            response = r.content;
            confidence = sure;
          }
            ∷ [];
    }

unfoldable pub ask : Setting → Provider → Option TokenBudget → Progress → Progress
unfolding finish
ask s provider budget p =
    let p' = record p { asked = p.asked ++ provider ∷ []; budget = budget } in
    elim (s.complete provider p.step.system_prompt p.step.user_prompt) [
      | none ↦ record p' { has_raised = true }
      | some r ↦ finish r budget p'
    ]

unfoldable skip : String → Progress → Progress
skip result p = record p { step = record p.step { status = StepStatus.skipped; result = result } }

-- What follows `budget.check`, from the budget it leaves and its verdict.
unfoldable heed : Setting → TokenBudget × BudgetAction → Progress → Progress
unfolding skip ask choose
heed s (b, BudgetAction.skip) p =
    skip (append "[Budget skipped] Token budget exhausted for: " p.step.name)
      (record p { budget = some b })
heed s (b, _) p = let (b', provider) = choose s.has_router b in ask s provider (some b') p

unfoldable with_budget : Setting → TokenBudget → Progress → Progress
unfolding heed
with_budget s b p =
    let cost = (s.length_of p.step.system_prompt + s.length_of p.step.user_prompt) / 2 in
    heed s (check cost p.step.name b) p

-- The resolved prompt is an argument.
unfoldable pub execute_step : Setting → String → Progress → Progress
unfolding with_budget skip
execute_step s prompt p =
    let p' = record p { step = record p.step { user_prompt = prompt } } in
    if is_blank prompt
    then record p' { step = record p'.step { status = StepStatus.skipped } }
    else elim p.budget [ none ↦ ask s Provider.usual none p' | some b ↦ with_budget s b p' ]
