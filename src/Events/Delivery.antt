-- ===== src/Events/Delivery.antt =====
-- What the event bus of noema/core/events.py keeps of the events it took: their order, and one count for
-- each handler that had to run.
use Prim.Native.String.{String}
use noema.Prelude.{
  ℕ, suc, ◌+◌, ◌≤◌, ◌≡◌, refl, sym, ap, subst, ◌∙◌, ◌⊎◌, inl, inr, false, List, [], ◌∷◌, ◌++◌,
  Option, none, some, append-nil, append_assoc, arith, if◌then◌else◌, Bool-cases, length,
  length-append,
}
use noema.Events.{
  Event, Exn, Bus, Op, init, is_full, publish, bound_letters, handlers_for, begin, pair_with,
  dequeue, dequeue_when, deliver, deliver_to, step, run, subscribe, unsubscribe, has, handlers_of,
}

-- A bus with what has been accepted and taken off the queue so far, and the count of handler runs and
-- refusals that are due.
pub record Trace : Type 0 where
  pub bus : Bus
  pub accepted : List Event
  pub taken : List Event
  pub due : ℕ

pub start_of : Bus → Trace
start_of bus = record { bus = bus; accepted = []; taken = []; due = 0 }

abbrev pub runs_of : List String → ℕ
runs_of [] = 1
runs_of (h ∷ hs) = suc (length hs)

-- The events that the next `dequeue` takes, and the handler runs that it makes due.
abbrev pub takes : List (Event × String) → List Event → List Event
takes (l ∷ ls) queue = []
takes [] [] = []
takes [] (event ∷ queue) = event ∷ []

abbrev pub owes : List (Event × String) → List Event → Bus → ℕ
owes (l ∷ ls) queue bus = 0
owes [] [] bus = 0
owes [] (event ∷ queue) bus = runs_of (handlers_for event bus)

unfoldable pub traced : Op → Trace → Trace
traced (Op.publish_op e) t = record {
  bus = step (Op.publish_op e) t.bus;
  accepted = if is_full t.bus then t.accepted else t.accepted ++ e ∷ [];
  taken = t.taken;
  due = if is_full t.bus then t.due + 1 else t.due;
}
traced Op.dequeue_op t = record {
  bus = step Op.dequeue_op t.bus;
  accepted = t.accepted;
  taken = t.taken ++ takes t.bus.at_hand t.bus.queue;
  due = t.due + owes t.bus.at_hand t.bus.queue t.bus;
}
traced (Op.subscribe_op k h) t = record t { bus = step (Op.subscribe_op k h) t.bus }
traced (Op.unsubscribe_op k h) t = record t { bus = step (Op.unsubscribe_op k h) t.bus }
traced (Op.deliver_op o) t = record t { bus = step (Op.deliver_op o) t.bus }

unfoldable pub trace : List Op → Trace → Trace
trace [] t = t
trace (op ∷ ops) t = trace ops (traced op t)

abbrev pub FitsIn : ℕ → ℕ → Type 0
FitsIn n max = (max ≡ 0) ⊎ (n ≤ max)

pub IsAccounted : Trace → Type 0
IsAccounted t =
    (t.accepted ≡ t.taken ++ t.bus.queue)
    × (t.bus.published ≡ length t.accepted)
    × (t.bus.delivered + t.bus.failed + length t.bus.at_hand ≡ t.due)
    × (length t.bus.dead_letters ≤ t.bus.failed)
    × FitsIn (length t.bus.queue) t.bus.max_queue

length-bound_letters : (ls : List (Event × Exn)) → length (bound_letters ls) ≤ length ls
unfolding bound_letters
length-bound_letters [] = omega arith
length-bound_letters (l ∷ ls) = ground arith

length-pair_with : (e : Event) (hs : List String) → length (pair_with e hs) ≡ length hs
length-pair_with e [] = refl
length-pair_with e (h ∷ hs) = ap suc (length-pair_with e hs)

not_full : (bus : Bus) → is_full bus ≡ false → FitsIn (length bus.queue + 1) bus.max_queue
unfolding is_full
not_full bus h = ground arith

publish-IsAccounted :
    (e : Event) (t : Trace) → IsAccounted t → IsAccounted (traced (Op.publish_op e) t)
unfolding IsAccounted traced step publish
publish-IsAccounted e t (a, p, d, l, f) = elim (Bool-cases (is_full t.bus)) [
  | inl y ↦ rw (y) (
    a,
    p,
    omega (arith, d),
    omega (
      arith,
      l,
      length-bound_letters (t.bus.dead_letters ++ (e, Exn.queue_full) ∷ []),
      length-append t.bus.dead_letters ((e, Exn.queue_full) ∷ []),
    ),
    f,
  )
  | inr n ↦ rw (n) (
    ap (λ xs. xs ++ e ∷ []) a ∙ append_assoc t.taken t.bus.queue (e ∷ []),
    omega (arith, p, length-append t.accepted (e ∷ [])),
    d,
    l,
    subst (λ k. FitsIn k t.bus.max_queue) (sym (length-append t.bus.queue (e ∷ [])))
        (not_full t.bus n),
  )
]

fits_less : (n max : ℕ) → FitsIn (suc n) max → FitsIn n max
fits_less n max (inl z) = inl z
fits_less n max (inr h) = inr (omega (arith, h))

begin-IsAccounted :
    (e : Event) (queue : List Event) (hs : List String) (t : Trace)
    → t.bus.at_hand ≡ []
    → t.bus.queue ≡ e ∷ queue
    → IsAccounted t
    → IsAccounted (record {
      bus = begin e hs (record t.bus { queue = queue });
      accepted = t.accepted;
      taken = t.taken ++ e ∷ [];
      due = t.due + runs_of hs;
    })
unfolding IsAccounted begin
begin-IsAccounted e queue [] t none_left next (a, p, d, l, f) = (
  a ∙ ap (λ xs. t.taken ++ xs) next ∙ sym (append_assoc t.taken (e ∷ []) queue),
  p,
  omega (arith, d),
  l,
  fits_less (length queue) t.bus.max_queue (subst (λ q. FitsIn (length q) t.bus.max_queue) next f),
)
begin-IsAccounted e queue (h ∷ hs) t none_left next (a, p, d, l, f) = (
  a ∙ ap (λ xs. t.taken ++ xs) next ∙ sym (append_assoc t.taken (e ∷ []) queue),
  p,
  omega (arith, d, ap length none_left, length-pair_with e hs),
  l,
  fits_less (length queue) t.bus.max_queue (subst (λ q. FitsIn (length q) t.bus.max_queue) next f),
)

dequeue_when-IsAccounted :
    (ls : List (Event × String)) (q : List Event) (t : Trace)
    → t.bus.at_hand ≡ ls
    → t.bus.queue ≡ q
    → IsAccounted t
    → IsAccounted (record {
      bus = dequeue_when ls q t.bus;
      accepted = t.accepted;
      taken = t.taken ++ takes ls q;
      due = t.due + owes ls q t.bus;
    })
unfolding IsAccounted dequeue_when
dequeue_when-IsAccounted (x ∷ xs) q t some_left next (a, p, d, l, f) =
    (rw (append-nil t.taken) a, p, omega (arith, d), l, f)
dequeue_when-IsAccounted [] [] t none_left next (a, p, d, l, f) =
    (rw (append-nil t.taken) a, p, omega (arith, d), l, f)
dequeue_when-IsAccounted [] (e ∷ queue) t none_left next i =
    begin-IsAccounted e queue (handlers_for e t.bus) t none_left next i

deliver_to-IsAccounted :
    (ls : List (Event × String)) (o : Option String) (t : Trace)
    → t.bus.at_hand ≡ ls
    → IsAccounted t
    → IsAccounted (record t { bus = deliver_to ls o t.bus })
unfolding IsAccounted deliver_to
deliver_to-IsAccounted [] o t left (a, p, d, l, f) = (a, p, d, l, f)
deliver_to-IsAccounted ((e, h) ∷ ls) none t left (a, p, d, l, f) =
    (a, p, omega (arith, d, ap length left), l, f)
deliver_to-IsAccounted ((e, h) ∷ ls) (some exc) t left (a, p, d, l, f) = (
  a,
  p,
  omega (arith, d, ap length left),
  omega (arith, l, length-append t.bus.dead_letters ((e, Exn.handler_error exc) ∷ [])),
  f,
)

unsubscribe-IsAccounted :
    (k h : String) (t : Trace)
    → IsAccounted t
    → IsAccounted (record t { bus = unsubscribe k h t.bus })
unfolding IsAccounted unsubscribe
unsubscribe-IsAccounted k h t i = elim (Bool-cases (has h (handlers_of k t.bus))) [
  | inl y ↦ rw (y) i
  | inr n ↦ rw (n) i
]

traced-IsAccounted : (op : Op) (t : Trace) → IsAccounted t → IsAccounted (traced op t)
unfolding IsAccounted traced step subscribe dequeue deliver
traced-IsAccounted (Op.publish_op e) t i = publish-IsAccounted e t i
traced-IsAccounted Op.dequeue_op t i =
    dequeue_when-IsAccounted t.bus.at_hand t.bus.queue t refl refl i
traced-IsAccounted (Op.subscribe_op k h) t i = i
traced-IsAccounted (Op.unsubscribe_op k h) t i = unsubscribe-IsAccounted k h t i
traced-IsAccounted (Op.deliver_op o) t i = deliver_to-IsAccounted t.bus.at_hand o t refl i

keep : (ops : List Op) (t : Trace) → IsAccounted t → IsAccounted (trace ops t)
unfolding trace
keep [] t i = i
keep (op ∷ ops) t i = keep ops (traced op t) (traced-IsAccounted op t i)

-- Whatever is subscribed, unsubscribed, published and delivered in whatever order: the events accepted
-- are those taken by the consumer followed by those still queued, in order; `published` counts them; each
-- handler run that was due and each refusal is counted once as delivered or failed or is still to come;
-- there are no more dead letters than failures, and the queue stays within its size.
pub trace-IsAccounted :
    (max_queue : ℕ) (ops : List Op) → IsAccounted (trace ops (start_of (init max_queue)))
unfolding start_of IsAccounted
trace-IsAccounted max_queue ops =
    keep ops (start_of (init max_queue)) (refl, refl, refl, omega arith, inr (omega arith))

-- The trace's bus is the one that the operations lead to.
pub bus-trace : (ops : List Op) (t : Trace) → (trace ops t).bus ≡ run ops t.bus
unfolding trace run traced
bus-trace [] t = refl
bus-trace (Op.publish_op e ∷ ops) t = bus-trace ops (traced (Op.publish_op e) t)
bus-trace (Op.dequeue_op ∷ ops) t = bus-trace ops (traced Op.dequeue_op t)
bus-trace (Op.subscribe_op k h ∷ ops) t = bus-trace ops (traced (Op.subscribe_op k h) t)
bus-trace (Op.unsubscribe_op k h ∷ ops) t = bus-trace ops (traced (Op.unsubscribe_op k h) t)
bus-trace (Op.deliver_op o ∷ ops) t = bus-trace ops (traced (Op.deliver_op o) t)
