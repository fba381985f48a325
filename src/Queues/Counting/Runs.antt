-- ===== src/Queues/Counting/Runs.antt =====
-- The counters over a run of the job queue of noema/modules/queues/kernel.py.
use Prim.Native.String.{String}
use noema.Prelude.{
  ℕ, ◌+◌, ◌≡◌, refl, subst, inl, inr, List, [], ◌∷◌, arith, insert, Result, ok, raise,
}
use noema.Queues.{
  Entry, JobQueue, Op, init, register_handler, new_job, enqueue, Error, take_next, finish, step,
  run,
}
use noema.Queues.Returns.{Holds, push-Holds, step-cases}
use noema.Queues.Counting.{
  IsCounted, entered_by, lost_by, cancelled_by, enqueues, cancels, length-put, insert-WithinRetries,
  finish-IsCounted, take_from-IsCounted,
}

enqueue-IsCounted :
    (entered lost : ℕ) (id name payload : String) (priority retries now : ℕ) (q : JobQueue)
    → IsCounted entered lost q
    → Holds (IsCounted (1 + entered) lost) (enqueue id name payload priority retries now q)
unfolding IsCounted enqueue
enqueue-IsCounted entered lost id name payload priority retries now q (p, a, s, t, r) =
    let entry : Entry = record { priority = priority; created_at = now; job_id = id } in
    let job = new_job name payload priority retries now in
    push-Holds (IsCounted (1 + entered) lost) entry q.queue
      (λ queue. record q {
        jobs = insert id job q.jobs;
        queue = queue;
        stats = record q.stats { pending = q.stats.pending + 1 };
      })
      (
        omega (arith, p, length-put entry q.queue),
        a,
        omega (arith, s),
        omega (arith, t),
        insert-WithinRetries id job q.jobs (unfold new_job in omega arith) r,
      )

unchanged :
    (entered lost : ℕ) (q : JobQueue)
    → IsCounted entered lost q
    → IsCounted (0 + entered) (0 + lost) q
unfolding IsCounted
unchanged entered lost q (p, a, s, t, r) = (p, a, omega (arith, s), omega (arith, t), r)

none_entered :
    (entered lost : ℕ) (x : Result Error JobQueue)
    → Holds (IsCounted entered lost) x
    → Holds (IsCounted (0 + entered) lost) x
unfolding IsCounted
none_entered entered lost (raise e) i = tt
none_entered entered lost (ok q) (p, a, s, t, r) = (p, a, omega (arith, s), omega (arith, t), r)

none_lost :
    (entered lost : ℕ) (x : Result Error JobQueue)
    → Holds (IsCounted entered lost) x
    → Holds (IsCounted entered (0 + lost)) x
unfolding IsCounted
none_lost entered lost (raise e) i = tt
none_lost entered lost (ok q) (p, a, s, t, r) = (p, a, s, omega (arith, t), r)

step-IsCounted :
    (entered lost : ℕ) (op : Op) (q : JobQueue)
    → IsCounted entered lost q
    → Holds (IsCounted (entered_by op + entered) (cancelled_by op + lost)) (step op q)
unfolding step register_handler take_next
step-IsCounted entered lost (Op.register_op name) q i =
    unchanged entered lost (register_handler name q) (unfold IsCounted in i)
step-IsCounted entered lost (Op.enqueue_op id name payload priority retries now) q i =
    none_lost (1 + entered) lost (enqueue id name payload priority retries now q)
      (enqueue-IsCounted entered lost id name payload priority retries now q i)
step-IsCounted entered lost (Op.take_op now) q i =
    unchanged entered lost (take_next now q) (take_from-IsCounted entered lost now q.queue q refl i)
step-IsCounted entered lost (Op.finish_op ending id now) q i =
    none_entered entered (lost_by ending + lost) (finish ending id now q)
      (finish-IsCounted entered lost now ending id q i)

run-IsCounted-from :
    (entered lost : ℕ) (ops : List Op) (q : JobQueue) {q' : JobQueue}
    → IsCounted entered lost q
    → run ops q ≡ ok q'
    → IsCounted (enqueues ops + entered) (cancels ops + lost) q'
unfolding run enqueues cancels
run-IsCounted-from entered lost [] q {q'} i h =
    let same : q ≡ q' = cc in
    subst (IsCounted (0 + entered) (0 + lost)) same (unchanged entered lost q i)
run-IsCounted-from entered lost (op ∷ ops) q {q'} i h = elim (step-cases (step op q)) [
  | inr (e, raised) ↦ let h' = rw (raised) at h in absurd cc
  | inl (q₁, stepped) ↦
      let rest : run ops q₁ ≡ ok q' = rw (stepped) at h in
      let counted =
        run-IsCounted-from (entered_by op + entered) (cancelled_by op + lost) ops q₁
          (subst (Holds (IsCounted (entered_by op + entered) (cancelled_by op + lost))) stepped
            (step-IsCounted entered lost op q i))
          rest in
      subst (λ n. IsCounted n (cancelled_by op + cancels ops + lost) q') (omega arith)
        (subst (λ n. IsCounted (enqueues ops + (entered_by op + entered)) n q') (omega arith)
          counted)
]

-- Whatever order the workers' rounds take, as long as no two jobs of one priority and time come to be queued
-- together, which raises: `pending` counts the queued jobs and `processing` those whose handlers run; each
-- job enqueued is counted once, as pending, processing, completed or failed, but for at most as many as
-- handlers were cancelled; and no job is retried more often than its `max_retries`.
pub run-IsCounted :
    (ops : List Op) {q : JobQueue} → run ops init ≡ ok q → IsCounted (enqueues ops) (cancels ops) q
run-IsCounted ops {q} h =
    subst (λ n. IsCounted n (cancels ops) q) (omega arith)
      (subst (λ n. IsCounted (enqueues ops + 0) n q) (omega arith)
        (run-IsCounted-from 0 0 ops init
          (unfold IsCounted in (refl, refl, omega arith, omega arith, tt)) h))
