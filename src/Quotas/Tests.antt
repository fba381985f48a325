-- ===== src/Quotas/Tests.antt =====
-- The quotas of noema/billing/quotas.py in memory.
use noema.Prelude.{ℕ, refl, false, List, [], ◌∷◌, none}
use noema.Quotas.{TenantQuota, Services}
use noema.Quotas.Concurrency.{Op, IsWithin, run, run-IsWithin}

abbrev services : Services ℕ
services = record {
  pg_quota = λ t w. none;
  pg_monthly_cost = λ t w. none;
  redis_monthly_cost = λ t w. none;
  pg_hourly_count = λ t w. none;
  redis_active_count = λ t w. none;
  pg_set_quota = λ t q w. w;
  redis_sadd = λ t k w. (w, false);
  redis_srem = λ t k w. (w, false);
}

abbrev one_task : TenantQuota
one_task = record {
  monthly_budget = 10;
  max_concurrent_tasks = 1;
  max_tasks_per_hour = 3;
  max_input_tokens_per_task = 1000;
}

abbrev ops : List Op
ops =
    Op.begin_op "acme" "t1" 1 10 100
    ∷ Op.begin_op "acme" "t2" 1 10 101
    ∷ Op.begin_op "other" "t3" 1 10 102
    ∷ Op.end_op "acme" "t1"
    ∷ Op.begin_op "acme" "t2" 1 10 103
    ∷ []

run-IsWithin_example : IsWithin services (
    run services ops (record {
      defaults_cache = ("acme", one_task) ∷ [];
      active_tasks = [];
      task_starts = [];
      world = 0;
    }))
run-IsWithin_example =
    run-IsWithin services (λ t w. refl) (λ t w. refl) (λ t k w. refl) (λ t k w. refl) ops
      (("acme", one_task) ∷ []) 0
