-- ===== src/Queues.antt =====
-- The class `JobQueue` of noema/modules/queues/kernel.py. Workers interleave, so that a worker's round has
-- two halves: `take_next` up to the `await` of the handler, and `finish` from it on. The queue and the
-- workers hold a job by its id, since the source's dictionary and queue share the object. The heap is a
-- list in order of priority and time. Jobs cannot be compared, so that a push which meets an entry of its own
-- priority and time raises `TypeError`; here it raises whenever the heap holds such an entry, though the
-- source need not compare the two. What a call that raises has changed before is left out: a run ends there.
pub mod Counting
pub mod Priorities
pub mod Returns
pub mod Sorting
mod Tests
use Prim.Native.String.{String, ◌++◌ as append}
use noema.Prelude.{
  ℕ, zero, suc, ◌+◌, ◌-◌, Bool, true, false, List, [], ◌∷◌, Option, none, some, ltb, if◌then◌else◌,
  lookup, insert, ◌==◌, ◌&&◌, ◌||◌, Result, ok, raise, ◌>>=◌,
}
use text.Mathlib.Text.{◌==◌ as str_eq}

pub data JobStatus : Type 0 where
  pending processing completed failed retrying cancelled : JobStatus

-- The value of a `JobPriority` is a number from 0 to 3.
pub record Job : Type 0 where
  pub name : String
  pub payload : String
  pub status : JobStatus
  pub priority : ℕ
  pub max_retries : ℕ
  pub retry_count : ℕ
  pub result : Option String
  pub error : String
  pub created_at : ℕ
  pub started_at : Option ℕ
  pub completed_at : Option ℕ

-- A place in the heap; the source's key holds the negated priority.
pub record Entry : Type 0 where
  pub priority : ℕ
  pub created_at : ℕ
  pub job_id : String

pub record Stats : Type 0 where
  pub pending : ℕ
  pub processing : ℕ
  pub completed : ℕ
  pub failed : ℕ

pub record JobQueue : Type 0 where
  pub queue : List Entry
  pub jobs : List (String × Job)
  pub handlers : List String
  pub stats : Stats
  -- The jobs whose handlers the workers await.
  pub active : List String

abbrev pub init : JobQueue
init = record {
  queue = [];
  jobs = [];
  handlers = [];
  stats = record { pending = 0; processing = 0; completed = 0; failed = 0 };
  active = [];
}

unfoldable pub register_handler : String → JobQueue → JobQueue
register_handler job_name q = record q { handlers = job_name ∷ q.handlers }

-- The order of the keys `(-priority, created_at)`.
unfoldable pub before : Entry → Entry → Bool
before a b =
    if ltb b.priority a.priority
    then true
    else if ltb a.priority b.priority
    then false
    else ltb a.created_at b.created_at

unfoldable pub put : Entry → List Entry → List Entry
put e [] = e ∷ []
put e (d ∷ ds) = let rest = put e ds in if before e d then e ∷ d ∷ ds else d ∷ rest

pub data Error : Type 0 where
  type_error : Error

unfoldable pub ties : Entry → List Entry → Bool
ties e [] = false
ties e (d ∷ ds) = ((e.priority == d.priority) && (e.created_at == d.created_at)) || ties e ds

-- `self._queue.put`
unfoldable pub push : Entry → List Entry → Result Error (List Entry)
push e es = if ties e es then raise Error.type_error else ok (put e es)

unfoldable pub new_job : String → String → ℕ → ℕ → ℕ → Job
new_job job_name payload priority max_retries now = record {
  name = job_name;
  payload = payload;
  status = JobStatus.pending;
  priority = priority;
  max_retries = max_retries;
  retry_count = 0;
  result = none;
  error = "";
  created_at = now;
  started_at = none;
  completed_at = none;
}

-- The new job's id, made by `uuid4`, and the time are arguments.
unfoldable pub enqueue : String → String → String → ℕ → ℕ → ℕ → JobQueue → Result Error JobQueue
enqueue id job_name payload priority max_retries now q = do
  queue ← push (record { priority = priority; created_at = now; job_id = id }) q.queue
  ok (record q {
    jobs = insert id (new_job job_name payload priority max_retries now) q.jobs;
    queue = queue;
    stats = record q.stats { pending = q.stats.pending + 1 };
  })

abbrev pub has : String → List String → Bool
has name [] = false
has name (h ∷ hs) = if str_eq name h then true else has name hs

abbrev pub no_handler : String → String
no_handler name = append "No handler registered for '" (append name "'")

-- A worker's round up to the handler; with no handler the job fails at once.
unfoldable pub start_job : String → ℕ → Job → JobQueue → JobQueue
start_job id now job q =
    let begun = record job { status = JobStatus.processing; started_at = some now } in
    if has job.name q.handlers
    then record q {
      jobs = insert id begun q.jobs;
      stats = record q.stats { pending = q.stats.pending - 1; processing = q.stats.processing + 1 };
      active = id ∷ q.active;
    }
    else record q {
      jobs =
          insert id (record begun { status = JobStatus.failed; error = no_handler job.name })
            q.jobs;
      stats = record q.stats { pending = q.stats.pending - 1; failed = q.stats.failed + 1 };
    }

-- Nothing removes a job, so that an entry whose id has none does not arise.
unfoldable pub take_from : List Entry → ℕ → JobQueue → JobQueue
take_from [] now q = q
take_from (e ∷ es) now q = elim (lookup e.job_id q.jobs) [
  | none ↦ q
  | some job ↦ start_job e.job_id now job (record q { queue = es })
]

unfoldable pub take_next : ℕ → JobQueue → JobQueue
take_next now q = take_from q.queue now q

-- How the awaited handler ended; `cancelled` is the cancellation by `stop`.
pub data Ending : Type 0 where
  returned : String → Ending
  timed_out : Ending
  raised : String → Ending
  cancelled : Ending

abbrev pub remove_first : String → List String → List String
remove_first id [] = []
remove_first id (x ∷ xs) = if str_eq id x then xs else x ∷ remove_first id xs

unfoldable pub complete : String → String → Job → JobQueue → JobQueue
complete id result job q = record q {
  jobs = insert id (record job { status = JobStatus.completed; result = some result }) q.jobs;
  stats = record q.stats { completed = q.stats.completed + 1 };
}

unfoldable pub fail : String → String → Job → JobQueue → JobQueue
fail id error job q = record q {
  jobs = insert id (record job { status = JobStatus.failed; error = error }) q.jobs;
  stats = record q.stats { failed = q.stats.failed + 1 };
}

unfoldable pub retry_or_fail : String → String → Job → JobQueue → Result Error JobQueue
unfolding fail
retry_or_fail id error job q =
    if ltb job.retry_count job.max_retries
    then (do
      queue ←
          push (record { priority = job.priority; created_at = job.created_at; job_id = id })
            q.queue
      ok (record q {
        jobs =
            insert id
              (record job { status = JobStatus.retrying; retry_count = job.retry_count + 1 })
              q.jobs;
        queue = queue;
        stats = record q.stats { pending = q.stats.pending + 1 };
      }))
    else ok (fail id error job q)

-- `completed_at` and the count of the `finally` clause are set before: nothing reads them between.
unfoldable pub end_job : Ending → String → Job → JobQueue → Result Error JobQueue
unfolding complete fail retry_or_fail
end_job (Ending.returned result) id job q = ok (complete id result job q)
end_job Ending.timed_out id job q = ok (fail id "Job timed out" job q)
end_job (Ending.raised error) id job q = retry_or_fail id error job q
end_job Ending.cancelled id job q = ok (record q { jobs = insert id job q.jobs })

unfoldable pub finish_job : Ending → String → ℕ → Option Job → JobQueue → Result Error JobQueue
finish_job ending id now none q = ok q
finish_job ending id now (some job) q =
    end_job ending id (record job { completed_at = some now })
      (record q {
        stats = record q.stats { processing = q.stats.processing - 1 };
        active = remove_first id q.active;
      })

unfoldable pub finish : Ending → String → ℕ → JobQueue → Result Error JobQueue
finish ending id now q =
    if has id q.active then finish_job ending id now (lookup id q.jobs) q else ok q

pub data Op : Type 0 where
  register_op : String → Op
  enqueue_op : String → String → String → ℕ → ℕ → ℕ → Op
  take_op : ℕ → Op
  finish_op : Ending → String → ℕ → Op

unfoldable pub step : Op → JobQueue → Result Error JobQueue
step (register_op name) q = ok (register_handler name q)
step (enqueue_op id name payload priority retries now) q =
    enqueue id name payload priority retries now q
step (take_op now) q = ok (take_next now q)
step (finish_op ending id now) q = finish ending id now q

unfoldable pub run : List Op → JobQueue → Result Error JobQueue
unfolding step
run [] q = ok q
run (op ∷ ops) q = do q' ← step op q; run ops q'
