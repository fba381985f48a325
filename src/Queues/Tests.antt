-- ===== src/Queues/Tests.antt =====
-- The job queue of noema/modules/queues/kernel.py at work.
use noema.Prelude.{lookup, insert, List, [], ◌∷◌, Result, ok, raise, refl}
use noema.Queues.{
  JobQueue, Error, Ending, Op, init, run, step, register_handler, enqueue, push, ties, put, new_job,
  take_next, take_from, start_job, finish, finish_job, end_job, complete, fail, retry_or_fail,
  before,
}
use noema.Queues.Priorities.{HasNewIds, InOrder, run-InOrder}
use noema.Queues.Counting.{IsCounted, enqueues, cancels}
use noema.Queues.Counting.Runs.{run-IsCounted}

abbrev queue_or : JobQueue → Result Error JobQueue → JobQueue
queue_or q (ok q') = q'
queue_or q (raise e) = q

-- A mail of low priority, then an urgent report that is retried, and a cancelled mail.
abbrev ops : List Op
ops =
    Op.register_op "mail"
    ∷ Op.register_op "report"
    ∷ Op.enqueue_op "a1" "mail" "{}" 0 3 10
    ∷ Op.enqueue_op "b2" "report" "{}" 3 1 11
    ∷ Op.take_op 12
    ∷ Op.finish_op (Ending.raised "disk full") "b2" 13
    ∷ Op.take_op 14
    ∷ Op.finish_op (Ending.returned "done") "b2" 15
    ∷ Op.take_op 16
    ∷ Op.finish_op Ending.cancelled "a1" 17
    ∷ []

-- The queue after these steps: no job is left in it, and the mail's handler was cancelled.
abbrev ended : JobQueue
ended = queue_or init (run ops init)

run-IsCounted_example : IsCounted (enqueues ops) (cancels ops) ended
unfolding run step register_handler enqueue push ties put new_job take_next take_from start_job
    finish finish_job end_job complete fail retry_or_fail before lookup insert
run-IsCounted_example = run-IsCounted ops refl

-- Two mails wait, and a report that failed is queued again before them.
abbrev waiting : List Op
waiting =
    Op.register_op "report"
    ∷ Op.enqueue_op "a1" "mail" "{}" 0 3 10
    ∷ Op.enqueue_op "b2" "report" "{}" 3 1 11
    ∷ Op.enqueue_op "c3" "mail" "{}" 0 3 12
    ∷ Op.take_op 13
    ∷ Op.finish_op (Ending.raised "disk full") "b2" 14
    ∷ []

abbrev backlog : JobQueue
backlog = queue_or init (run waiting init)

run-InOrder_example : InOrder backlog.jobs backlog.queue
unfolding HasNewIds run step register_handler enqueue push ties put new_job take_next take_from
    start_job finish finish_job end_job complete fail retry_or_fail before lookup insert
run-InOrder_example = run-InOrder waiting (tt, (refl, (refl, (refl, (tt, (tt, tt)))))) refl
