-- ===== src/Queues/Returns.antt =====
-- Properties of what a call of noema/modules/queues/kernel.py returns, if it returns.
use noema.Prelude.{◌≡◌, refl, inl, inr, List, Bool-cases, Result, ok, raise, ◌>>=◌, ◌⊎◌}
use noema.Queues.{Entry, JobQueue, put, Error, ties, push}

-- A property of the queue, if the call returns.
abbrev pub Holds : (JobQueue → Type 0) → Result Error JobQueue → Type 0
Holds P (ok q) = P q
Holds P (raise e) = Unit

pub push-Holds :
    (P : JobQueue → Type 0) (e : Entry) (es : List Entry) (next : List Entry → JobQueue)
    → P (next (put e es))
    → Holds P (push e es >>= λ queue. ok (next queue))
unfolding push
push-Holds P e es next h = elim (Bool-cases (ties e es)) [ inl y ↦ rw (y) tt | inr n ↦ rw (n) h ]

pub step-cases :
    (x : Result Error JobQueue) → ((q : JobQueue) × (x ≡ ok q)) ⊎ ((e : Error) × (x ≡ raise e))
step-cases (ok q) = inl (q, refl)
step-cases (raise e) = inr (e, refl)
