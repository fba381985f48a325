-- ===== src/Events/Overflow.antt =====
-- What a handler that always raises does to the dead letters of noema/core/events.py.
use Prim.Native.String.{String}
use text.Mathlib.Text.{◌==◌ as str_eq}
use text.Mathlib.TextPositions.{eq_refl}
use noema.Prelude.{
  ℕ, zero, suc, ◌+◌, ◌≡◌, refl, ap, ◌∙◌, List, [], ◌∷◌, ◌++◌, some, arith, length, length-append,
  false, lookup_or, insert,
}
use noema.Events.{
  Event, Exn, Handler, Bus, Op, init, publish, is_full, handlers_for, handlers_of, begin, dequeue,
  dequeue_when, deliver, deliver_to, step, run, subscribe,
}

unfoldable raising_round : Event → String → List Op
raising_round event exc = Op.publish_op event ∷ Op.dequeue_op ∷ Op.deliver_op (some exc) ∷ []

unfoldable pub raising_rounds : ℕ → Event → String → List Op
unfolding raising_round
raising_rounds zero event exc = []
raising_rounds (suc n) event exc = raising_round event exc ++ raising_rounds n event exc

-- A bus at rest with one subscription and some dead letters.
unfoldable pub at_rest : String → Handler → List (Event × Exn) → ℕ → ℕ → Bus
unfolding subscribe handlers_of
at_rest event_type handler letters published failed =
    record (subscribe event_type handler (init 1000)) {
      dead_letters = letters;
      published = published;
      failed = failed;
    }

one_round :
    (event : Event) (handler exc : String) (letters : List (Event × Exn)) (p f : ℕ) (ops : List Op)
    → handlers_for event (subscribe event.type handler (init 1000)) ≡ handler ∷ []
    → run
        (Op.publish_op event ∷ Op.dequeue_op ∷ Op.deliver_op (some exc) ∷ ops)
        (at_rest event.type handler letters p f)
      ≡ run ops (
          at_rest event.type handler
            (letters ++ (event, Exn.handler_error exc) ∷ [])
            (p + 1)
            (f + 1))
unfolding run step publish is_full at_rest subscribe handlers_for handlers_of dequeue dequeue_when
    begin deliver deliver_to
one_round event handler exc letters p f ops one = rw (one) refl

length-run-raising_rounds :
    (n : ℕ) (event : Event) (handler exc : String) (letters : List (Event × Exn)) (p f : ℕ)
    → handlers_for event (subscribe event.type handler (init 1000)) ≡ handler ∷ []
    → length
        (run (raising_rounds n event exc) (at_rest event.type handler letters p f)).dead_letters
      ≡ length letters + n
unfolding raising_rounds raising_round run at_rest
length-run-raising_rounds zero event handler exc letters p f one = omega arith
length-run-raising_rounds (suc n) event handler exc letters p f one =
    let more = letters ++ (event, Exn.handler_error exc) ∷ [] in
    ap (λ b. length b.dead_letters)
      (one_round event handler exc letters p f (raising_rounds n event exc) one)
    ∙ length-run-raising_rounds n event handler exc more (p + 1) (f + 1) one
    ∙ omega (arith, length-append letters ((event, Exn.handler_error exc) ∷ []))

only_handler :
    (event : Event) (handler : String)
    → str_eq "*" event.type ≡ false
    → handlers_for event (subscribe event.type handler (init 1000)) ≡ handler ∷ []
unfolding handlers_for handlers_of subscribe lookup_or insert
only_handler event handler typed = rw (eq_refl event.type, typed) refl

-- With one handler subscribed to a type of events other than "*" and raising each time, n events of that
-- type leave n dead letters, whatever n is: the bound of 1000 that `publish` keeps is not kept where
-- handlers fail.
pub length-dead_letters-raising_rounds :
    (n : ℕ) (event : Event) (handler exc : String)
    → str_eq "*" event.type ≡ false
    → length
        (run (raising_rounds n event exc) (subscribe event.type handler (init 1000))).dead_letters
      ≡ n
unfolding at_rest
length-dead_letters-raising_rounds n event handler exc typed =
    length-run-raising_rounds n event handler exc [] 0 0 (only_handler event handler typed)
    ∙ omega arith
