-- ===== src/Events/Tests.antt =====
-- The event bus of noema/core/events.py at work.
use noema.Prelude.{◌≡◌, refl, List, [], ◌∷◌, some, none, length}
use noema.Events.{Event, Op, init, run, subscribe}
use noema.Events.Delivery.{IsAccounted, trace, start_of, trace-IsAccounted}
use noema.Events.Overflow.{raising_rounds, length-dead_letters-raising_rounds}

abbrev solved : Event
solved = record { type = "task.solved"; payload = "{}"; id = "1"; source = "engine" }

abbrev ops : List Op
ops =
    Op.subscribe_op "task.solved" "log"
    ∷ Op.subscribe_op "*" "audit"
    ∷ Op.publish_op solved
    ∷ Op.publish_op solved
    ∷ Op.dequeue_op
    ∷ Op.deliver_op none
    ∷ Op.deliver_op (some "timeout")
    ∷ []

trace-IsAccounted_example : IsAccounted (trace ops (start_of (init 1)))
trace-IsAccounted_example = trace-IsAccounted 1 ops

length-dead_letters-raising_rounds_example :
    length
      (run
        (raising_rounds 1001 solved "boom")
        (subscribe "task.solved" "log" (init 1000))).dead_letters
    ≡ 1001
length-dead_letters-raising_rounds_example =
    length-dead_letters-raising_rounds 1001 solved "log" "boom" refl
