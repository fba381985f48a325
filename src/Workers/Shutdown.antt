-- ===== src/Workers/Shutdown.antt =====
-- What `submit` of noema/workers/pool.py gives for a task that no worker had taken when the pool shut down.
use Prim.Native.String.{String}
use text.Mathlib.Text.{◌==◌ as str_eq}
use text.Mathlib.TextEquality.{eq_iff}
use text.Mathlib.TextPositions.{eq_refl}
use noema.Prelude.{
  ◌+◌, ◌≡◌, refl, sym, ap, subst, ◌∙◌, inl, inr, true, false, List, [], ◌∷◌, ◌++◌, Option, none,
  some, Bool-cases, lookup, insert, lookup-insert, lookup-insert-other, ok, if◌then◌else◌,
}
use noema.Workers.{
  Task, Pool, new_task, submit, enqueue, enqueue_first, is_full, change, change_found, end_task,
  Ending, has, release, release_each, cancel_each, shutdown, Outcome, task_outcome, outcome_of,
}

-- The task as `submit` made it, and as `shutdown` leaves it.
abbrev released : Task
released = release new_task

change_found-same :
    (f : Task → Task) (id : String) (t : Task) (o : Option Task) (objects : List (String × Task))
    → o ≡ some t
    → lookup id (change_found f id o objects) ≡ some (f t)
change_found-same f id t o objects h =
    subst (λ o'. lookup id (change_found f id o' objects) ≡ some (f t)) (sym h)
      (lookup-insert id (f t) objects)

change_found-other :
    (f : Task → Task) (id k : String) (o : Option Task) (objects : List (String × Task))
    → str_eq id k ≡ false
    → lookup id (change_found f k o objects) ≡ lookup id objects
change_found-other f id k none objects h = refl
change_found-other f id k (some t) objects h = lookup-insert-other id k (f t) objects h

-- A change of some task leaves a released task as it is, if it would not change one.
change-released :
    (f : Task → Task) (id k : String) (objects : List (String × Task))
    → f released ≡ released
    → lookup id objects ≡ some released
    → lookup id (change f k objects) ≡ some released
unfolding change
change-released f id k objects same h = elim (Bool-cases (str_eq id k)) [
  | inl y ↦
      subst (λ k'. lookup id (change f k' objects) ≡ some released) ((eq_iff id k).0 y)
        (change_found-same f id released (lookup id objects) objects h ∙ ap some same)
  | inr n ↦ change_found-other f id k (lookup k objects) objects n ∙ h
]

release_each-released :
    (ids : List String) (id : String) (objects : List (String × Task))
    → lookup id objects ≡ some released
    → lookup id (release_each ids objects) ≡ some released
unfolding release_each
release_each-released [] id objects h = h
release_each-released (k ∷ ks) id objects h =
    release_each-released ks id (change release k objects)
      (change-released release id k objects refl h)

cancel_each-released :
    (ids : List String) (id : String) (objects : List (String × Task))
    → lookup id objects ≡ some released
    → lookup id (cancel_each ids objects) ≡ some released
unfolding cancel_each
cancel_each-released [] id objects h = h
cancel_each-released (k ∷ ks) id objects h =
    cancel_each-released ks id (change (end_task Ending.cancelled) k objects)
      (change-released (end_task Ending.cancelled) id k objects refl h)

release_each-new :
    (ids : List String) (id : String) (objects : List (String × Task))
    → has id ids ≡ true
    → lookup id objects ≡ some new_task
    → lookup id (release_each ids objects) ≡ some released
unfolding release_each
release_each-new [] id objects h found = absurd cc
release_each-new (k ∷ ks) id objects h found = elim (Bool-cases (str_eq id k)) [
  | inl y ↦ release_each-released ks id (change release k objects) (
      subst (λ k'. lookup id (change release k' objects) ≡ some released) ((eq_iff id k).0 y)
        (unfold change in change_found-same release id new_task (lookup id objects) objects found))
  | inr n ↦
      release_each-new ks id (change release k objects) (rw n at h)
        ((unfold change in change_found-other release id k (lookup k objects) objects n) ∙ found)
]

has-append : (id : String) (ids : List String) → has id (ids ++ id ∷ []) ≡ true
has-append id [] = rw (eq_refl id) refl
has-append id (k ∷ ks) = elim (Bool-cases (str_eq id k)) [
  | inl y ↦ rw (y) refl
  | inr n ↦ rw (n) (has-append id ks)
]

outcome-found :
    (id : String) (p : Pool)
    → has id p.putting ≡ false
    → lookup id p.objects ≡ some released
    → outcome_of id p ≡ Outcome.returned none
unfolding outcome_of task_outcome
outcome-found id p put h = rw (outcome_of, put, h) refl

-- A task that is known, that the queue has and that no worker has taken is released.
shutdown-found :
    (id : String) (p : Pool)
    → has id p.putting ≡ false
    → has id p.tasks ≡ true
    → lookup id p.objects ≡ some new_task
    → outcome_of id (shutdown p) ≡ Outcome.returned none
unfolding shutdown
shutdown-found id p put known found = outcome-found id (shutdown p) put (
    cancel_each-released p.active id (release_each p.tasks p.objects)
      (release_each-new p.tasks id p.objects known found))

shutdown-putting :
    (id : String) (p : Pool)
    → has id p.putting ≡ true
    → outcome_of id (shutdown p) ≡ Outcome.waiting
unfolding shutdown outcome_of
shutdown-putting id p h = rw (h) refl

-- If a running pool, with no other submitter waiting for room, shuts down after a task was submitted and
-- before a worker took it: if the queue was full, the submitter waits, after the shutdown too; otherwise it
-- gets the value `None` as if its function had returned it, and no exception.
pub outcome_of-shutdown :
    (id : String) (p : Pool)
    → p.is_running ≡ true
    → p.putting ≡ []
    → (p' : Pool) × (submit id p ≡ ok p')
      × (outcome_of id (shutdown (enqueue p'))
          ≡ (if is_full p then Outcome.waiting else Outcome.returned none))
unfolding submit enqueue enqueue_first
outcome_of-shutdown id p on alone =
    let p' : Pool = record p {
      objects = insert id new_task p.objects;
      tasks = p.tasks ++ id ∷ [];
      putting = p.putting ++ id ∷ [];
      total_submitted = p.total_submitted + 1;
    } in
    let submitted = ap (λ ids. ids ++ id ∷ []) alone in
    (
      p',
      simp (on) refl,
      ap (λ ids. outcome_of id (shutdown (enqueue_first ids p'))) submitted
          ∙ (elim (Bool-cases (is_full p)) [
            | inl y ↦ rw (y) (shutdown-putting id p' (rw (submitted) (rw (eq_refl id) refl)))
            | inr n ↦ rw (n) (
                shutdown-found id (record p' { putting = []; queue = p.queue ++ id ∷ [] }) refl
                  (has-append id p.tasks) (lookup-insert id new_task p.objects))
          ]),
    )
