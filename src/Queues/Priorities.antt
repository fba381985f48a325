-- ===== src/Queues/Priorities.antt =====
-- The jobs that the queue of noema/modules/queues/kernel.py hands out first, told by the jobs themselves.
use Prim.Native.String.{String}
use noema.Prelude.{
  ℕ, ◌-◌, ◌+◌, ◌≤◌, ◌<◌, ◌≡◌, refl, ap, ◌∙◌, inl, inr, ◌⊎◌, false, List, [], ◌∷◌, none, some, arith,
  ltb, Bool-cases, Option-cases, lookup, insert, lookup-insert, subst, ok,
}
use noema.Queues.{
  Job, JobStatus, Entry, JobQueue, Ending, Op, init, register_handler, before, new_job, enqueue,
  has, no_handler, start_job, take_from, take_next, complete, fail, retry_or_fail, end_job,
  finish_job, finish, remove_first, step, run,
}
use noema.Queues.Returns.{Holds, push-Holds, step-cases}
use noema.Queues.Sorting.{
  Jobs, NoneBefore, IsOrdered, put-IsOrdered, Keyed, AllKeyed, AllKeyed-put, Fits, AllKeyed-insert,
}

Sorted : JobQueue → Type 0
Sorted q = AllKeyed q.jobs q.queue × IsOrdered q.queue

-- What the source writes to a job leaves its priority and its time.
Fits-found :
    (id : String) (job job' : Job) (jobs : Jobs)
    → lookup id jobs ≡ some job
    → job.priority ≡ job'.priority
    → job.created_at ≡ job'.created_at
    → Fits id job' jobs
Fits-found id job job' jobs found p c j h =
    let same : j ≡ job = cc in
    (ap (λ (x : Job). x.priority) same ∙ p, ap (λ (x : Job). x.created_at) same ∙ c)

start_job-Sorted :
    (id : String) (now : ℕ) (job : Job) (q : JobQueue)
    → lookup id q.jobs ≡ some job
    → Sorted q
    → Sorted (start_job id now job q)
unfolding start_job Sorted
start_job-Sorted id now job q found (k, o) = elim (Bool-cases (has job.name q.handlers)) [
  | inl y ↦
      let begun = record job { status = JobStatus.processing; started_at = some now } in
      rw (y) (
        AllKeyed-insert id begun q.jobs q.queue (Fits-found id job begun q.jobs found refl refl) k,
        o,
      )
  | inr n ↦
      let failed : Job = record job {
        status = JobStatus.failed;
        started_at = some now;
        error = no_handler job.name;
      } in
      rw (n) (
        AllKeyed-insert id failed q.jobs q.queue (Fits-found id job failed q.jobs found refl refl)
            k,
        o,
      )
]

take_from-Sorted :
    (es : List Entry) (now : ℕ) (q : JobQueue)
    → q.queue ≡ es
    → Sorted q
    → Sorted (take_from es now q)
unfolding take_from
take_from-Sorted [] now q next s = s
take_from-Sorted (e ∷ es) now q next s = elim (Option-cases (lookup e.job_id q.jobs)) [
  | inl missing ↦ rw (take_from, missing) s
  | inr (job, found) ↦
      let rest : (Keyed q.jobs e × AllKeyed q.jobs es) × (NoneBefore e es × IsOrdered es) =
        unfold Sorted IsOrdered in (subst (AllKeyed q.jobs) next s.0, subst IsOrdered next s.1) in
      rw (take_from, found)
        (start_job-Sorted e.job_id now job (record q { queue = es }) found
          (unfold Sorted in (rest.0.1, rest.1.1)))
]

end_job-Sorted :
    (ending : Ending) (id : String) (old job : Job) (q : JobQueue)
    → lookup id q.jobs ≡ some old
    → old.priority ≡ job.priority
    → old.created_at ≡ job.created_at
    → Sorted q
    → Holds Sorted (end_job ending id job q)
unfolding end_job complete fail retry_or_fail Sorted
end_job-Sorted (Ending.returned v) id old job q found p c (k, o) = (
  AllKeyed-insert id (record job { status = JobStatus.completed; result = some v }) q.jobs q.queue
      (Fits-found id old (record job { status = JobStatus.completed; result = some v }) q.jobs found
        p c)
      k,
  o,
)
end_job-Sorted Ending.timed_out id old job q found p c (k, o) = (
  AllKeyed-insert id (record job { status = JobStatus.failed; error = "Job timed out" }) q.jobs
      q.queue
      (Fits-found id old (record job { status = JobStatus.failed; error = "Job timed out" }) q.jobs
        found p c)
      k,
  o,
)
end_job-Sorted Ending.cancelled id old job q found p c (k, o) =
    (AllKeyed-insert id job q.jobs q.queue (Fits-found id old job q.jobs found p c) k, o)
end_job-Sorted (Ending.raised v) id old job q found p c (k, o) =
    let tried : Job = record job {
      status = JobStatus.retrying;
      retry_count = job.retry_count + 1;
    } in
    let failed : Job = record job { status = JobStatus.failed; error = v } in
    let entry : Entry = record {
      priority = job.priority;
      created_at = job.created_at;
      job_id = id;
    } in
    elim (Bool-cases (ltb job.retry_count job.max_retries)) [
      | inl y ↦ rw (y) (
          push-Holds Sorted entry q.queue
            (λ queue. record q {
              jobs = insert id tried q.jobs;
              queue = queue;
              stats = record q.stats { pending = q.stats.pending + 1 };
            })
            (
              AllKeyed-put (insert id tried q.jobs) entry q.queue
                  (tried, lookup-insert id tried q.jobs, refl, refl)
                  (AllKeyed-insert id tried q.jobs q.queue
                    (Fits-found id old tried q.jobs found p c) k),
              put-IsOrdered entry q.queue o,
            ))
      | inr n ↦ rw (n) (
        AllKeyed-insert id failed q.jobs q.queue (Fits-found id old failed q.jobs found p c) k,
        o,
      )
    ]

finish-Sorted :
    (ending : Ending) (id : String) (now : ℕ) (q : JobQueue)
    → Sorted q
    → Holds Sorted (finish ending id now q)
unfolding finish finish_job
finish-Sorted ending id now q s = elim (Bool-cases (has id q.active)) [
  | inr n ↦ rw (n) s
  | inl y ↦ elim (Option-cases (lookup id q.jobs)) [
    | inl missing ↦ rw (y, missing) s
    | inr (job, found) ↦
        rw (y, found)
          (end_job-Sorted ending id job (record job { completed_at = some now })
            (record q {
              stats = record q.stats { processing = q.stats.processing - 1 };
              active = remove_first id q.active;
            })
            found refl refl (unfold Sorted in s))
  ]
]

-- A job enqueued has an id that no job had.
abbrev pub HasNewId : Op → JobQueue → Type 0
HasNewId (Op.enqueue_op id name payload priority retries now) q = lookup id q.jobs ≡ none
HasNewId _ q = Unit

unfoldable pub HasNewIds : List Op → JobQueue → Type 0
HasNewIds [] q = Unit
HasNewIds (op ∷ ops) q = HasNewId op q × Holds (HasNewIds ops) (step op q)

step-Sorted : (op : Op) (q : JobQueue) → HasNewId op q → Sorted q → Holds Sorted (step op q)
unfolding step register_handler take_next enqueue
step-Sorted (Op.register_op name) q f s = unfold Sorted in s
step-Sorted (Op.take_op now) q f s = take_from-Sorted q.queue now q refl s
step-Sorted (Op.finish_op ending id now) q f s = finish-Sorted ending id now q s
step-Sorted (Op.enqueue_op id name payload priority retries now) q f s =
    let entry : Entry = record { priority = priority; created_at = now; job_id = id } in
    let job = new_job name payload priority retries now in
    let (k, o) : AllKeyed q.jobs q.queue × IsOrdered q.queue = unfold Sorted in s in
    push-Holds Sorted entry q.queue
      (λ queue. record q {
        jobs = insert id job q.jobs;
        queue = queue;
        stats = record q.stats { pending = q.stats.pending + 1 };
      })
      (unfold Sorted in
        (
          AllKeyed-put (insert id job q.jobs) entry q.queue
              (job, lookup-insert id job q.jobs, unfold new_job in refl, unfold new_job in refl)
              (AllKeyed-insert id job q.jobs q.queue (λ j h. absurd cc) k),
          put-IsOrdered entry q.queue o,
        ))

run-Sorted :
    (ops : List Op) (q : JobQueue) {q' : JobQueue}
    → HasNewIds ops q
    → Sorted q
    → run ops q ≡ ok q'
    → Sorted q'
unfolding run HasNewIds
run-Sorted [] q {q'} f s h = let same : q ≡ q' = cc in subst Sorted same s
run-Sorted (op ∷ ops) q {q'} (f, fs) s h = elim (step-cases (step op q)) [
  | inr (e, raised) ↦ let h' = rw (raised) at h in absurd cc
  | inl (q₁, stepped) ↦
      let rest : run ops q₁ ≡ ok q' = rw (stepped) at h in
      run-Sorted ops q₁ (subst (Holds (HasNewIds ops)) stepped fs)
        (subst (Holds Sorted) stepped (step-Sorted op q f s)) rest
]

-- The first job has a higher priority, or the same and is not younger.
abbrev pub IsAhead : Job → Job → Type 0
IsAhead j k =
    (k.priority < j.priority) ⊎ ((k.priority ≡ j.priority) × (j.created_at ≤ k.created_at))

abbrev pub AheadOf : Jobs → Job → List Entry → Type 0
AheadOf jobs j [] = Unit
AheadOf jobs j (d ∷ ds) =
    ((k : Job) × (lookup d.job_id jobs ≡ some k) × IsAhead j k) × AheadOf jobs j ds

-- Each entry has a job, which is ahead of the jobs of all entries behind it.
unfoldable pub InOrder : Jobs → List Entry → Type 0
InOrder jobs [] = Unit
InOrder jobs (e ∷ es) =
    ((j : Job) × (lookup e.job_id jobs ≡ some j) × AheadOf jobs j es) × InOrder jobs es

ahead :
    (j k : Job) (e d : Entry)
    → before d e ≡ false
    → j.priority ≡ e.priority
    → j.created_at ≡ e.created_at
    → k.priority ≡ d.priority
    → k.created_at ≡ d.created_at
    → IsAhead j k
unfolding before
ahead j k e d h p c p' c' = ground arith

AheadOf-NoneBefore :
    (jobs : Jobs) (j : Job) (e : Entry) (ds : List Entry)
    → j.priority ≡ e.priority
    → j.created_at ≡ e.created_at
    → AllKeyed jobs ds
    → NoneBefore e ds
    → AheadOf jobs j ds
AheadOf-NoneBefore jobs j e [] p c ks ns = tt
AheadOf-NoneBefore jobs j e (d ∷ ds) p c ((k, found, p', c'), ks) (n, ns) =
    ((k, found, ahead j k e d n p c p' c'), AheadOf-NoneBefore jobs j e ds p c ks ns)

InOrder-Sorted : (jobs : Jobs) (es : List Entry) → AllKeyed jobs es → IsOrdered es → InOrder jobs es
unfolding InOrder IsOrdered
InOrder-Sorted jobs [] ks o = tt
InOrder-Sorted jobs (e ∷ es) ((j, found, p, c), ks) (n, o) =
    ((j, found, AheadOf-NoneBefore jobs j e es p c ks n), InOrder-Sorted jobs es ks o)

-- After any run in which every enqueued job has a new id and no two jobs of one priority and time come to be
-- queued together, which raises: each queued entry has a job, new or queued again for a retry, and ahead of
-- the jobs of all entries behind it, by a higher priority, or by the same and an earlier or equal time.
pub run-InOrder :
    (ops : List Op) {q : JobQueue}
    → HasNewIds ops init
    → run ops init ≡ ok q
    → InOrder q.jobs q.queue
run-InOrder ops {q} f h =
    let (k, o) : AllKeyed q.jobs q.queue × IsOrdered q.queue =
      unfold Sorted in run-Sorted ops init f (unfold Sorted IsOrdered in (tt, tt)) h in
    InOrder-Sorted q.jobs q.queue k o
