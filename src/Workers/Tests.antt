-- ===== src/Workers/Tests.antt =====
-- The pool of noema/workers/pool.py at work.
use noema.Prelude.{◌≡◌, refl, if◌then◌else◌, List, [], ◌∷◌, none, ok}
use noema.Workers.{
  Pool, init, is_full, Ending, start, submit, enqueue, shutdown, Outcome, outcome_of,
}
use noema.Workers.Counting.{Op, IsCounted, cancels, run, run-init-IsCounted}
use noema.Workers.Shutdown.{outcome_of-shutdown}

abbrev ops : List Op
ops =
    Op.start_op
    ∷ Op.submit_op "a"
    ∷ Op.submit_op "b"
    ∷ Op.enqueue_op
    ∷ Op.enqueue_op
    ∷ Op.take_op
    ∷ Op.enqueue_op
    ∷ Op.finish_op (Ending.raised "boom") "a"
    ∷ Op.submit_op "c"
    ∷ Op.abandon_op "c"
    ∷ Op.finish_op Ending.cancelled "b"
    ∷ Op.forget_op "a"
    ∷ []

run-init-IsCounted_example : IsCounted (cancels ops) (run ops (init 1))
run-init-IsCounted_example = run-init-IsCounted 1 ops

outcome_of-shutdown_example :
    (p' : Pool) × (submit "a" (start (init 4)) ≡ ok p')
    × (outcome_of "a" (shutdown (enqueue p'))
        ≡ (if is_full (start (init 4)) then Outcome.waiting else Outcome.returned none))
outcome_of-shutdown_example =
    outcome_of-shutdown "a" (start (init 4)) (unfold start in refl) (unfold start in refl)
