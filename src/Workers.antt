-- ===== src/Workers.antt =====
-- The class `WorkerPool` of noema/workers/pool.py. `submit` has three parts, between which other coroutines
-- run: `submit` up to the `put`, `enqueue` when the queue has room, and `outcome_of` once the task's event is
-- set. A worker's round is `take_next` and `finish`. Task objects are known by their ids; times are left out.
pub mod Counting
pub mod Shutdown
mod Tests
use Prim.Native.String.{String}
use text.Mathlib.Text.{◌==◌ as str_eq}
use noema.Prelude.{
  ℕ, ◌+◌, Bool, true, false, List, [], ◌∷◌, ◌++◌, ◌&&◌, Option, none, some, leb, if◌then◌else◌,
  length, lookup, insert, Result, ok, raise,
}

pub data TaskState : Type 0 where
  pending running completed failed : TaskState

pub record Task : Type 0 where
  pub state : TaskState
  pub result : Option String
  pub error : Option String
  pub done : Bool

pub record Pool : Type 0 where
  pub max_queue_size : ℕ
  pub is_running : Bool
  -- Every task object, and the ids that `_tasks` holds.
  pub objects : List (String × Task)
  pub tasks : List String
  -- Submitters that wait for room in the queue, in order.
  pub putting : List String
  pub queue : List String
  pub active : List String
  pub total_submitted : ℕ
  pub total_completed : ℕ
  pub total_failed : ℕ

abbrev pub init : ℕ → Pool
init max_queue_size = record {
  max_queue_size = max_queue_size;
  is_running = false;
  objects = [];
  tasks = [];
  putting = [];
  queue = [];
  active = [];
  total_submitted = 0;
  total_completed = 0;
  total_failed = 0;
}

unfoldable pub start : Pool → Pool
start p = record p { is_running = true }

abbrev pub new_task : Task
new_task = record { state = TaskState.pending; result = none; error = none; done = false }

pub data Error : Type 0 where
  not_running : Error

unfoldable pub submit : String → Pool → Result Error Pool
submit id p =
    if p.is_running
    then ok (record p {
      objects = insert id new_task p.objects;
      tasks = p.tasks ++ id ∷ [];
      putting = p.putting ++ id ∷ [];
      total_submitted = p.total_submitted + 1;
    })
    else raise not_running

-- A queue made with size 0 is never full.
abbrev pub is_full : Pool → Bool
is_full p = leb 1 p.max_queue_size && leb p.max_queue_size (length p.queue)

unfoldable pub enqueue_first : List String → Pool → Pool
enqueue_first [] p = p
enqueue_first (id ∷ ids) p =
    if is_full p then p else record p { putting = ids; queue = p.queue ++ id ∷ [] }

-- `self._queue.put`, when there is room.
unfoldable pub enqueue : Pool → Pool
unfolding enqueue_first
enqueue p = enqueue_first p.putting p

abbrev pub change_found :
    (Task → Task) → String → Option Task → List (String × Task) → List (String × Task)
change_found f id none objects = objects
change_found f id (some t) objects = insert id (f t) objects

-- An assignment to the fields of a task object.
unfoldable pub change : (Task → Task) → String → List (String × Task) → List (String × Task)
change f id objects = change_found f id (lookup id objects) objects

abbrev pub run_task : Task → Task
run_task t = record t { state = TaskState.running }

unfoldable pub take_from : List String → Pool → Pool
unfolding change
take_from [] p = p
take_from (id ∷ ids) p =
    if p.is_running
    then record p { objects = change run_task id p.objects; queue = ids; active = id ∷ p.active }
    else p

unfoldable pub take_next : Pool → Pool
unfolding take_from
take_next p = take_from p.queue p

-- How the task's function ends; `cancelled` is a `CancelledError`, its own or by `shutdown`.
pub data Ending : Type 0 where
  returned : String → Ending
  raised : String → Ending
  cancelled : Ending

-- The `try` with its `finally`, on the task.
abbrev pub end_task : Ending → Task → Task
end_task (Ending.returned v) t = record t {
  state = TaskState.completed;
  result = some v;
  done = true;
}
end_task (Ending.raised e) t = record t { state = TaskState.failed; error = some e; done = true }
end_task Ending.cancelled t = record t { done = true }

abbrev pub completions : Ending → ℕ
completions (Ending.returned v) = 1
completions (Ending.raised e) = 0
completions Ending.cancelled = 0

abbrev pub failures : Ending → ℕ
failures (Ending.returned v) = 0
failures (Ending.raised e) = 1
failures Ending.cancelled = 0

abbrev pub has : String → List String → Bool
has id [] = false
has id (x ∷ xs) = if str_eq id x then true else has id xs

abbrev pub remove_first : String → List String → List String
remove_first id [] = []
remove_first id (x ∷ xs) = if str_eq id x then xs else x ∷ remove_first id xs

-- The cancellation of a submitter that waits for room: it is before the `try` of `submit`.
unfoldable pub abandon : String → Pool → Pool
abandon id p = record p { putting = remove_first id p.putting }

unfoldable pub finish : Ending → String → Pool → Pool
unfolding change
finish ending id p =
    if has id p.active
    then record p {
      objects = change (end_task ending) id p.objects;
      active = remove_first id p.active;
      total_completed = p.total_completed + completions ending;
      total_failed = p.total_failed + failures ending;
    }
    else p

abbrev pub release : Task → Task
release t = record t { done = true }

-- The `finally` of `submit`.
unfoldable pub forget : String → Pool → Pool
forget id p = record p { tasks = remove_first id p.tasks }

-- The events of all tasks in `_tasks`.
unfoldable pub release_each : List String → List (String × Task) → List (String × Task)
unfolding change
release_each [] objects = objects
release_each (id ∷ ids) objects = release_each ids (change release id objects)

-- Cancelling the workers ends the tasks that they run.
unfoldable pub cancel_each : List String → List (String × Task) → List (String × Task)
unfolding change
cancel_each [] objects = objects
cancel_each (id ∷ ids) objects = cancel_each ids (change (end_task Ending.cancelled) id objects)

-- The queue keeps what it holds.
unfoldable pub shutdown : Pool → Pool
unfolding release_each cancel_each
shutdown p = record p {
  is_running = false;
  objects = cancel_each p.active (release_each p.tasks p.objects);
  tasks = [];
  active = [];
}

-- What `submit` gives its caller: it waits for room in the queue and then for the event;
-- `returned none` is Python's `None`.
pub data Outcome : Type 0 where
  waiting : Outcome
  returned : Option String → Outcome
  raised : Option String → Outcome

abbrev pub is_failed : TaskState → Bool
is_failed TaskState.failed = true
is_failed _ = false

unfoldable pub task_outcome : Task → Outcome
task_outcome t =
    if t.done
    then (if is_failed t.state then Outcome.raised t.error else Outcome.returned t.result)
    else Outcome.waiting

unfoldable pub outcome_of : String → Pool → Outcome
unfolding task_outcome
outcome_of id p =
    if has id p.putting
    then Outcome.waiting
    else elim (lookup id p.objects) [ none ↦ Outcome.waiting | some t ↦ task_outcome t ]
