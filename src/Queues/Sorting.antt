-- ===== src/Queues/Sorting.antt =====
-- The heap of noema/modules/queues/kernel.py in order, and the keys of its entries beside their jobs.
use Prim.Native.String.{String}
use text.Mathlib.Text.{◌==◌ as str_eq}
use text.Mathlib.TextEquality.{eq_iff}
use noema.Prelude.{
  ◌≡◌, sym, ap, ◌∙◌, inl, inr, true, false, List, [], ◌∷◌, some, arith, Bool-cases, lookup, insert,
  lookup-insert, lookup-insert-other,
}
use noema.Queues.{Job, Entry, put, before}

abbrev pub Jobs : Type 0
Jobs = List (String × Job)

-- No entry of the list comes before `e`.
abbrev pub NoneBefore : Entry → List Entry → Type 0
NoneBefore e [] = Unit
NoneBefore e (d ∷ ds) = (before d e ≡ false) × NoneBefore e ds

-- The entry at the head, which the next worker takes, has none before it, and so on.
unfoldable pub IsOrdered : List Entry → Type 0
IsOrdered [] = Unit
IsOrdered (e ∷ es) = NoneBefore e es × IsOrdered es

before_asym : (d e : Entry) → before d e ≡ true → before e d ≡ false
unfolding before
before_asym d e h = ground arith

before_trans : (d e x : Entry) → before d e ≡ true → before x e ≡ false → before x d ≡ false
unfolding before
before_trans d e x h n = ground arith

weaken : (d e : Entry) (es : List Entry) → before d e ≡ true → NoneBefore e es → NoneBefore d es
weaken d e [] h n = tt
weaken d e (x ∷ xs) h (n, ns) = (before_trans d e x h n, weaken d e xs h ns)

put-NoneBefore :
    (d e : Entry) (es : List Entry) → before e d ≡ false → NoneBefore d es → NoneBefore d (put e es)
unfolding put
put-NoneBefore d e [] h n = (h, tt)
put-NoneBefore d e (x ∷ xs) h (n, ns) = elim (Bool-cases (before e x)) [
  | inl y ↦ rw (y) (h, (n, ns))
  | inr z ↦ rw (z) (n, put-NoneBefore d e xs h ns)
]

pub put-IsOrdered : (e : Entry) (es : List Entry) → IsOrdered es → IsOrdered (put e es)
unfolding put IsOrdered
put-IsOrdered e [] i = (tt, tt)
put-IsOrdered e (d ∷ ds) (n, i) = elim (Bool-cases (before e d)) [
  | inl y ↦ rw (y) ((before_asym e d y, weaken e d ds y n), (n, i))
  | inr z ↦ rw (z) (put-NoneBefore d e ds z n, put-IsOrdered e ds i)
]

-- The entry's key is its job's.
abbrev pub Keyed : Jobs → Entry → Type 0
Keyed jobs e =
    (j : Job) × (lookup e.job_id jobs ≡ some j)
    × (j.priority ≡ e.priority)
    × (j.created_at ≡ e.created_at)

abbrev pub AllKeyed : Jobs → List Entry → Type 0
AllKeyed jobs [] = Unit
AllKeyed jobs (e ∷ es) = Keyed jobs e × AllKeyed jobs es

pub AllKeyed-put :
    (jobs : Jobs) (e : Entry) (es : List Entry)
    → Keyed jobs e
    → AllKeyed jobs es
    → AllKeyed jobs (put e es)
unfolding put
AllKeyed-put jobs e [] k ks = (k, tt)
AllKeyed-put jobs e (d ∷ ds) k (l, ls) = elim (Bool-cases (before e d)) [
  | inl y ↦ rw (y) (k, (l, ls))
  | inr n ↦ rw (n) (l, AllKeyed-put jobs e ds k ls)
]

-- A job put at this id has the key of the one that was there, if one was.
abbrev pub Fits : String → Job → Jobs → Type 0
Fits id job jobs =
    (j : Job)
    → lookup id jobs ≡ some j
    → (j.priority ≡ job.priority) × (j.created_at ≡ job.created_at)

Keyed-insert :
    (id : String) (job : Job) (jobs : Jobs) (e : Entry)
    → Fits id job jobs
    → Keyed jobs e
    → Keyed (insert id job jobs) e
Keyed-insert id job jobs e fits (j, found, p, c) = elim (Bool-cases (str_eq e.job_id id)) [
  | inl y ↦
      let same = (eq_iff e.job_id id).0 y in
      let (p', c') = fits j (ap (λ k. lookup k jobs) (sym same) ∙ found) in
      (
        job,
        ap (λ k. lookup k (insert id job jobs)) same ∙ lookup-insert id job jobs,
        sym p' ∙ p,
        sym c' ∙ c,
      )
  | inr n ↦ (j, lookup-insert-other e.job_id id job jobs n ∙ found, p, c)
]

pub AllKeyed-insert :
    (id : String) (job : Job) (jobs : Jobs) (es : List Entry)
    → Fits id job jobs
    → AllKeyed jobs es
    → AllKeyed (insert id job jobs) es
AllKeyed-insert id job jobs [] fits ks = tt
AllKeyed-insert id job jobs (e ∷ es) fits (k, ks) =
    (Keyed-insert id job jobs e fits k, AllKeyed-insert id job jobs es fits ks)
