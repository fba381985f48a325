-- ===== src/Workers/Counting.antt =====
-- The counters of the pool of noema/workers/pool.py.
use Prim.Native.String.{String}
use text.Mathlib.Text.{◌==◌ as str_eq}
use noema.Prelude.{
  ℕ, suc, ◌+◌, ◌≤◌, ◌≡◌, refl, ap, inl, inr, ◌⊎◌, true, false, ◌&&◌, List, [], ◌∷◌, leb, length,
  length-append, subst, Bool-cases, arith, Result, ok, raise,
}
use noema.Workers.{
  Error, Pool, init, start, submit, enqueue, enqueue_first, take_from, take_next, Ending, has,
  remove_first, abandon, finish, forget, is_full,
}

-- What may happen to a pool while it is not shut down.
pub data Op : Type 0 where
  start_op : Op
  submit_op : String → Op
  enqueue_op : Op
  take_op : Op
  abandon_op : String → Op
  finish_op : Ending → String → Op
  forget_op : String → Op

-- A `submit` that raises changes nothing.
abbrev pub or_same : Pool → Result Error Pool → Pool
or_same p (ok p') = p'
or_same p (raise e) = p

unfoldable pub step : Op → Pool → Pool
step Op.start_op p = start p
step (Op.submit_op id) p = or_same p (submit id p)
step Op.enqueue_op p = enqueue p
step Op.take_op p = take_next p
step (Op.abandon_op id) p = abandon id p
step (Op.finish_op ending id) p = finish ending id p
step (Op.forget_op id) p = forget id p

unfoldable pub run : List Op → Pool → Pool
run [] p = p
run (op ∷ ops) p = run ops (step op p)

-- How many submitters waiting for room, and how many functions, a run cancels.
abbrev pub lost_by : Op → ℕ
lost_by (Op.abandon_op id) = 1
lost_by (Op.finish_op Ending.cancelled id) = 1
lost_by _ = 0

unfoldable pub cancels : List Op → ℕ
cancels [] = 0
cancels (op ∷ ops) = lost_by op + cancels ops

abbrev placed : Pool → ℕ
placed p = length p.putting + length p.queue + length p.active + p.total_completed + p.total_failed

-- Each submitted task is at one place: waiting for room, queued, run, completed or failed, but for at most
-- `lost` cancelled ones; and the queue is within its size.
pub IsCounted : ℕ → Pool → Type 0
IsCounted lost p =
    (placed p ≤ p.total_submitted)
    × (p.total_submitted ≤ placed p + lost)
    × ((p.max_queue_size ≡ 0) ⊎ (length p.queue ≤ p.max_queue_size))

length-remove_first :
    (id : String) (xs : List String)
    → has id xs ≡ true
    → suc (length (remove_first id xs)) ≡ length xs
length-remove_first id [] h = ground arith
length-remove_first id (x ∷ xs) h = elim (Bool-cases (str_eq id x)) [
  | inl y ↦ rw (y) refl
  | inr n ↦ rw (n) (ap suc (length-remove_first id xs (rw n at h)))
]

submit-IsCounted :
    (lost : ℕ) (id : String) (p : Pool)
    → IsCounted lost p
    → IsCounted lost (or_same p (submit id p))
unfolding IsCounted submit
submit-IsCounted lost id p (c, d, f) = elim (Bool-cases p.is_running) [
  | inl y ↦ simp (y) (
    omega (arith, c, length-append p.putting (id ∷ [])),
    omega (arith, d, length-append p.putting (id ∷ [])),
    f,
  )
  | inr n ↦ simp (n) (c, d, f)
]

room : (max n m : ℕ) → (leb 1 max && leb max n) ≡ false → m ≡ n + 1 → (max ≡ 0) ⊎ (m ≤ max)
room max n m h e = ground (arith, h, e)

enqueue_first-IsCounted :
    (lost : ℕ) (ids : List String) (p : Pool)
    → p.putting ≡ ids
    → IsCounted lost p
    → IsCounted lost (enqueue_first ids p)
unfolding IsCounted enqueue_first
enqueue_first-IsCounted lost [] p next i = i
enqueue_first-IsCounted lost (id ∷ ids) p next (c, d, f) = elim (Bool-cases (is_full p)) [
  | inl y ↦ rw (y) (c, d, f)
  | inr n ↦ rw (n) (
    omega (arith, c, ap length next, length-append p.queue (id ∷ [])),
    omega (arith, d, ap length next, length-append p.queue (id ∷ [])),
    room p.max_queue_size (length p.queue) _ n (length-append p.queue (id ∷ [])),
  )
]

take_from-IsCounted :
    (lost : ℕ) (ids : List String) (p : Pool)
    → p.queue ≡ ids
    → IsCounted lost p
    → IsCounted lost (take_from ids p)
unfolding IsCounted take_from
take_from-IsCounted lost [] p next i = i
take_from-IsCounted lost (id ∷ ids) p next (c, d, f) = elim (Bool-cases p.is_running) [
  | inl y ↦ simp (y) (
    omega (arith, c, ap length next),
    omega (arith, d, ap length next),
    omega (arith, f, ap length next),
  )
  | inr n ↦ simp (n) (c, d, f)
]

remove_first-missing :
    (id : String) (xs : List String) → has id xs ≡ false → remove_first id xs ≡ xs
remove_first-missing id [] h = refl
remove_first-missing id (x ∷ xs) h = elim (Bool-cases (str_eq id x)) [
  | inl y ↦ let h' = rw (y) at h in absurd cc
  | inr n ↦ rw (n) (ap (λ ys. x ∷ ys) (remove_first-missing id xs (rw n at h)))
]

abandon-IsCounted :
    (lost : ℕ) (id : String) (p : Pool) → IsCounted lost p → IsCounted (1 + lost) (abandon id p)
unfolding IsCounted abandon
abandon-IsCounted lost id p (c, d, f) = elim (Bool-cases (has id p.putting)) [
  | inl y ↦ (
    omega (arith, c, length-remove_first id p.putting y),
    omega (arith, d, length-remove_first id p.putting y),
    f,
  )
  | inr n ↦ rw (remove_first-missing id p.putting n) (c, omega (arith, d), f)
]

finish-IsCounted :
    (lost : ℕ) (ending : Ending) (id : String) (p : Pool)
    → IsCounted lost p
    → IsCounted (lost_by (Op.finish_op ending id) + lost) (finish ending id p)
unfolding IsCounted finish
finish-IsCounted lost (Ending.returned v) id p (c, d, f) = elim (Bool-cases (has id p.active)) [
  | inl y ↦
      let freed = length-remove_first id p.active y in
      rw (y) (omega (arith, c, freed), omega (arith, d, freed), f)
  | inr n ↦ rw (n) (c, omega (arith, d), f)
]
finish-IsCounted lost (Ending.raised e) id p (c, d, f) = elim (Bool-cases (has id p.active)) [
  | inl y ↦
      let freed = length-remove_first id p.active y in
      rw (y) (omega (arith, c, freed), omega (arith, d, freed), f)
  | inr n ↦ rw (n) (c, omega (arith, d), f)
]
finish-IsCounted lost Ending.cancelled id p (c, d, f) = elim (Bool-cases (has id p.active)) [
  | inl y ↦
      let freed = length-remove_first id p.active y in
      rw (y) (omega (arith, c, freed), omega (arith, d, freed), f)
  | inr n ↦ rw (n) (c, omega (arith, d), f)
]

-- No task is lost by this step.
unchanged : (lost : ℕ) (p : Pool) → IsCounted lost p → IsCounted (0 + lost) p
unfolding IsCounted
unchanged lost p (c, d, f) = (c, omega (arith, d), f)

step-IsCounted :
    (op : Op) (lost : ℕ) (p : Pool) → IsCounted lost p → IsCounted (lost_by op + lost) (step op p)
unfolding step start enqueue take_next forget
step-IsCounted Op.start_op lost p i = unchanged lost (start p) (unfold IsCounted in i)
step-IsCounted (Op.submit_op id) lost p i =
    unchanged lost (or_same p (submit id p)) (submit-IsCounted lost id p i)
step-IsCounted Op.enqueue_op lost p i =
    unchanged lost (enqueue p) (enqueue_first-IsCounted lost p.putting p refl i)
step-IsCounted Op.take_op lost p i =
    unchanged lost (take_next p) (take_from-IsCounted lost p.queue p refl i)
step-IsCounted (Op.abandon_op id) lost p i = abandon-IsCounted lost id p i
step-IsCounted (Op.finish_op ending id) lost p i = finish-IsCounted lost ending id p i
step-IsCounted (Op.forget_op id) lost p i = unchanged lost (forget id p) (unfold IsCounted in i)

keep :
    (ops : List Op) (lost : ℕ) (p : Pool)
    → IsCounted lost p
    → IsCounted (cancels ops + lost) (run ops p)
unfolding run cancels
keep [] lost p i = unchanged lost p i
keep (op ∷ ops) lost p i =
    let moved : cancels ops + (lost_by op + lost) ≡ lost_by op + cancels ops + lost = omega arith in
    subst (λ n. IsCounted n (run ops (step op p))) moved
      (keep ops (lost_by op + lost) (step op p) (step-IsCounted op lost p i))

-- While a pool is not shut down, in whatever order its submitters and workers go on: `total_submitted` counts
-- each task once that waits for room, is queued, runs, has completed or has failed, and at most one more for
-- each submitter cancelled while it waits for room and each function that ends with `CancelledError`; and
-- the queue stays within its size, unless that is 0.
pub run-init-IsCounted :
    (max_queue_size : ℕ) (ops : List Op) → IsCounted (cancels ops) (run ops (init max_queue_size))
unfolding IsCounted
run-init-IsCounted max_queue_size ops =
    let none_yet : cancels ops + 0 ≡ cancels ops = omega arith in
    subst (λ n. IsCounted n (run ops (init max_queue_size))) none_yet
      (keep ops 0 (init max_queue_size) (omega arith, omega arith, inr (omega arith)))
