-- ===== src/Queues/Counting.antt =====
-- The counters of the job queue of noema/modules/queues/kernel.py and the retries of its jobs.
pub mod Runs
use Prim.Native.String.{String}
use text.Mathlib.Text.{◌==◌ as str_eq}
use noema.Prelude.{
  ℕ, suc, ◌+◌, ◌-◌, ◌≤◌, ◌≡◌, refl, ap, subst, inl, inr, true, List, [], ◌∷◌, Option, none, some,
  arith, ltb, ltb→lt, Bool-cases, Option-cases, length, lookup, insert, Result, ok, raise, ◌>>=◌,
  ◌⊎◌,
}
use noema.Queues.{
  Job, JobStatus, Entry, JobQueue, Stats, Ending, Op, init, register_handler, put, before, new_job,
  enqueue, Error, ties, push, has, no_handler, start_job, take_from, take_next, remove_first,
  complete, fail, retry_or_fail, end_job, finish_job, finish, step, run,
}
use noema.Queues.Returns.{Holds, push-Holds, step-cases}

-- How many jobs a run enqueues, and how many handlers it cancels.
abbrev pub entered_by : Op → ℕ
entered_by (Op.enqueue_op id name payload priority retries now) = 1
entered_by _ = 0

abbrev pub lost_by : Ending → ℕ
lost_by Ending.cancelled = 1
lost_by _ = 0

abbrev pub cancelled_by : Op → ℕ
cancelled_by (Op.finish_op ending id now) = lost_by ending
cancelled_by _ = 0

unfoldable pub enqueues : List Op → ℕ
enqueues [] = 0
enqueues (op ∷ ops) = entered_by op + enqueues ops

unfoldable pub cancels : List Op → ℕ
cancels [] = 0
cancels (op ∷ ops) = cancelled_by op + cancels ops

abbrev WithinRetries : List (String × Job) → Type 0
WithinRetries [] = Unit
WithinRetries ((id, job) ∷ jobs) = (job.retry_count ≤ job.max_retries) × WithinRetries jobs

abbrev sum_of : Stats → ℕ
sum_of s = s.pending + s.processing + s.completed + s.failed

-- A queue to which `entered` jobs have come, of which at most `lost` were cancelled.
pub IsCounted : ℕ → ℕ → JobQueue → Type 0
IsCounted entered lost q =
    (q.stats.pending ≡ length q.queue)
    × (q.stats.processing ≡ length q.active)
    × (sum_of q.stats ≤ entered)
    × (entered ≤ sum_of q.stats + lost)
    × WithinRetries q.jobs

pub length-put : (e : Entry) (es : List Entry) → length (put e es) ≡ suc (length es)
unfolding put
length-put e [] = refl
length-put e (d ∷ ds) = elim (Bool-cases (before e d)) [
  | inl y ↦ rw (y) refl
  | inr n ↦ rw (n) (ap suc (length-put e ds))
]

length-remove_first :
    (id : String) (xs : List String)
    → has id xs ≡ true
    → suc (length (remove_first id xs)) ≡ length xs
length-remove_first id [] h = ground arith
length-remove_first id (x ∷ xs) h = elim (Bool-cases (str_eq id x)) [
  | inl y ↦ rw (y) refl
  | inr n ↦ rw (n) (ap suc (length-remove_first id xs (rw n at h)))
]

pub insert-WithinRetries :
    (id : String) (job : Job) (jobs : List (String × Job))
    → job.retry_count ≤ job.max_retries
    → WithinRetries jobs
    → WithinRetries (insert id job jobs)
unfolding insert
insert-WithinRetries id job [] h w = (h, w)
insert-WithinRetries id job ((k, j) ∷ jobs) h w = elim (Bool-cases (str_eq id k)) [
  | inl y ↦ rw (y) (h, w.1)
  | inr n ↦ rw (n) (w.0, insert-WithinRetries id job jobs h w.1)
]

abbrev WithinOption : Option Job → Type 0
WithinOption none = Unit
WithinOption (some job) = job.retry_count ≤ job.max_retries

lookup-WithinRetries :
    (id : String) (jobs : List (String × Job)) → WithinRetries jobs → WithinOption (lookup id jobs)
unfolding lookup
lookup-WithinRetries id [] w = tt
lookup-WithinRetries id ((k, j) ∷ jobs) w = elim (Bool-cases (str_eq id k)) [
  | inl y ↦ rw (y) w.0
  | inr n ↦ rw (n) (lookup-WithinRetries id jobs w.1)
]

start_job-IsCounted :
    (entered lost now : ℕ) (id : String) (job : Job) (e : Entry) (es : List Entry) (q : JobQueue)
    → q.queue ≡ e ∷ es
    → job.retry_count ≤ job.max_retries
    → IsCounted entered lost q
    → IsCounted entered lost (start_job id now job (record q { queue = es }))
unfolding IsCounted start_job
start_job-IsCounted entered lost now id job e es q next w (p, a, s, t, r) =
    elim (Bool-cases (has job.name q.handlers)) [
      | inl y ↦ rw (y) (
        omega (arith, p, ap length next),
        omega (arith, a),
        omega (arith, s, p, ap length next),
        omega (arith, t, p, ap length next),
        insert-WithinRetries id
            (record job { status = JobStatus.processing; started_at = some now }) q.jobs w r,
      )
      | inr n ↦ rw (n) (
        omega (arith, p, ap length next),
        a,
        omega (arith, s, p, ap length next),
        omega (arith, t, p, ap length next),
        insert-WithinRetries id
            (record job {
              status = JobStatus.failed;
              started_at = some now;
              error = no_handler job.name;
            })
            q.jobs w r,
      )
    ]

pub take_from-IsCounted :
    (entered lost now : ℕ) (es : List Entry) (q : JobQueue)
    → q.queue ≡ es
    → IsCounted entered lost q
    → IsCounted entered lost (take_from es now q)
unfolding take_from IsCounted
take_from-IsCounted entered lost now [] q next i = i
take_from-IsCounted entered lost now (e ∷ es) q next (p, a, s, t, r) =
    elim (Option-cases (lookup e.job_id q.jobs)) [
      | inl missing ↦ rw (take_from, missing) (p, a, s, t, r)
      | inr (job, found) ↦
          rw (take_from, found)
            (start_job-IsCounted entered lost now e.job_id job e es q next
              (subst WithinOption found (lookup-WithinRetries e.job_id q.jobs r)) (p, a, s, t, r))
    ]

-- A handler that has ended, with its job out of the workers' hands.
abbrev released : String → JobQueue → JobQueue
released id q = record q {
  stats = record q.stats { processing = q.stats.processing - 1 };
  active = remove_first id q.active;
}

end_job-IsCounted :
    (entered lost : ℕ) (ending : Ending) (id : String) (job : Job) (q : JobQueue)
    → has id q.active ≡ true
    → job.retry_count ≤ job.max_retries
    → IsCounted entered lost q
    → Holds (IsCounted entered (lost_by ending + lost)) (end_job ending id job (released id q))
unfolding IsCounted end_job complete fail retry_or_fail
end_job-IsCounted entered lost (Ending.returned v) id job q h w (p, a, s, t, r) =
    let freed = length-remove_first id q.active h in
    (
      p,
      omega (arith, a, freed),
      omega (arith, s, a, freed),
      omega (arith, t, a, freed),
      insert-WithinRetries id (record job { status = JobStatus.completed; result = some v }) q.jobs
          w r,
    )
end_job-IsCounted entered lost Ending.timed_out id job q h w (p, a, s, t, r) =
    let freed = length-remove_first id q.active h in
    (
      p,
      omega (arith, a, freed),
      omega (arith, s, a, freed),
      omega (arith, t, a, freed),
      insert-WithinRetries id (record job { status = JobStatus.failed; error = "Job timed out" })
          q.jobs w r,
    )
end_job-IsCounted entered lost Ending.cancelled id job q h w (p, a, s, t, r) =
    let freed = length-remove_first id q.active h in
    (
      p,
      omega (arith, a, freed),
      omega (arith, s, a, freed),
      omega (arith, t, a, freed),
      insert-WithinRetries id job q.jobs w r,
    )
end_job-IsCounted entered lost (Ending.raised v) id job q h w (p, a, s, t, r) =
    let freed = length-remove_first id q.active h in
    let entry : Entry = record {
      priority = job.priority;
      created_at = job.created_at;
      job_id = id;
    } in
    elim (Bool-cases (ltb job.retry_count job.max_retries)) [
      | inl y ↦
          let tried : Job = record job {
            status = JobStatus.retrying;
            retry_count = job.retry_count + 1;
          } in
          rw (y) (
            push-Holds (IsCounted entered (0 + lost)) entry q.queue
              (λ queue. record (released id q) {
                jobs = insert id tried q.jobs;
                queue = queue;
                stats = record q.stats {
                  pending = q.stats.pending + 1;
                  processing = q.stats.processing - 1;
                };
              })
              (
                omega (arith, p, length-put entry q.queue),
                omega (arith, a, freed),
                omega (arith, s, a, freed),
                omega (arith, t, a, freed),
                insert-WithinRetries id tried q.jobs
                    (omega (arith, ltb→lt job.retry_count job.max_retries y)) r,
              ))
      | inr n ↦ rw (n) (
        p,
        omega (arith, a, freed),
        omega (arith, s, a, freed),
        omega (arith, t, a, freed),
        insert-WithinRetries id (record job { status = JobStatus.failed; error = v }) q.jobs w r,
      )
    ]

lose-IsCounted :
    (entered lost more : ℕ) (q : JobQueue)
    → IsCounted entered lost q
    → IsCounted entered (more + lost) q
unfolding IsCounted
lose-IsCounted entered lost more q (p, a, s, t, r) = (p, a, s, omega (arith, t), r)

pub finish-IsCounted :
    (entered lost now : ℕ) (ending : Ending) (id : String) (q : JobQueue)
    → IsCounted entered lost q
    → Holds (IsCounted entered (lost_by ending + lost)) (finish ending id now q)
unfolding finish finish_job IsCounted
finish-IsCounted entered lost now ending id q (p, a, s, t, r) =
    elim (Bool-cases (has id q.active)) [
      | inr n ↦ rw (n) (lose-IsCounted entered lost (lost_by ending) q (p, a, s, t, r))
      | inl y ↦ elim (Option-cases (lookup id q.jobs)) [
        | inl missing ↦
            rw (y, missing) (lose-IsCounted entered lost (lost_by ending) q (p, a, s, t, r))
        | inr (job, found) ↦
            rw (y, found)
              (end_job-IsCounted entered lost ending id (record job { completed_at = some now }) q y
                (subst WithinOption found (lookup-WithinRetries id q.jobs r)) (p, a, s, t, r))
      ]
    ]
