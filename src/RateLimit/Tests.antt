-- ===== src/RateLimit/Tests.antt =====
-- A sliding window of noema/api/rate_limit.py at work.
use noema.Prelude.{◌≤◌, arith, [], ◌∷◌, length}
use noema.RateLimit.{recent}
use noema.RateLimit.Window.{AreOrdered, last_time, granted, fresh, granted-le-max_requests}

granted-le-max_requests_example :
    length (
      recent 60 70
        (granted "a" ((5, "a") ∷ (6, "b") ∷ (7, "a") ∷ (8, "a") ∷ (66, "a") ∷ []) (fresh 60 2)))
    ≤ 2
unfolding AreOrdered last_time
granted-le-max_requests_example =
    granted-le-max_requests 60 2 "a" ((5, "a") ∷ (6, "b") ∷ (7, "a") ∷ (8, "a") ∷ (66, "a") ∷ []) 70
      (omega arith, (omega arith, (omega arith, (omega arith, (omega arith, tt))))) (omega arith)
