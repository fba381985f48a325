-- ===== src/Federation/Tests.antt =====
-- The router of noema/federation/router.py with one peer that fails and a local executor.
use Prim.Native.String.{String}
use noema.Prelude.{ℕ, ◌+◌, ◌≤◌, ◌≡◌, refl, true, [], ◌∷◌, some, length, Result, ok, arith}
use noema.Resilience.Breaker.{Exn, Outcome}
use noema.Federation.{Config, Router, LocalOutcome, Escape, breakers_of}
use noema.Federation.Delegation.{Summary, delegate, execute}
use noema.Federation.Settling.{Ends, noted}
use noema.Federation.Join.{IsJoin, execute-IsJoin}
use noema.Federation.Attempts.{AsksNone, calls-delegate}

-- The world is a clock in milliseconds and the number of calls of peers.
abbrev config : Config (ℕ × ℕ)
config = record {
  has_ledger = true;
  max_entries = 10000;
  is_readable = λ response. true;
  is_expired = λ w. true;
  max_retries = 2;
  base_delay = 50;
  max_delay = 1000;
  runtime = record { uniform = λ j w. (j, w); sleep = λ d w. (w.0 + d, w.1) };
  clock = λ w. w.0;
  think =
      λ address description w. ((w.0 + 5, w.1 + 1), Outcome.raised (Exn.exception "UNAVAILABLE"));
  local_executor = some (λ id description w. ((w.0 + 1, w.1), LocalOutcome.returned "done"));
}

abbrev router : Router (ℕ × ℕ)
router = record {
  executors = breakers_of 3 30000 ("north:50051" ∷ []);
  robin = 0;
  ledger = [];
  world = (0, 0);
}

abbrev show : ℕ → String
show n = "n"

abbrev joined : Router (ℕ × ℕ) × Result Escape Summary
joined = execute config show "build" ("parse" ∷ "plan" ∷ []) "t" router

execute-IsJoin_example :
    (summary : Summary) × (joined.1 ≡ ok summary)
    × IsJoin ("parse" ∷ "plan" ∷ []) summary
    × (length joined.0.ledger ≡ noted true 10000 0 2)
execute-IsJoin_example =
    execute-IsJoin config (λ v. refl) (λ w. refl) (unfold Ends in (λ id description w. refl)) show
      "build" ("parse" ∷ "plan" ∷ []) "t" router (omega arith)

calls-delegate_example : (delegate config "t:0" "parse" router).0.world.1 ≤ router.world.1 + (2 + 1)
calls-delegate_example =
    calls-delegate config (λ w. w.1) (λ address description w. omega arith) (λ j w. refl)
      (λ d w. refl) (unfold AsksNone in (λ id description w. omega arith)) "t:0" "parse" router
