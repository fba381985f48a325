-- ===== src/Quotas/Concurrency.antt =====
-- What checking before tracking keeps of the tenants' limits in noema/billing/quotas.py.
use Prim.Native.String.{String}
use text.Mathlib.Text.{◌==◌ as str_eq}
use text.Mathlib.TextEquality.{eq_iff}
use noema.Prelude.{
  ℕ, ◌+◌, ◌≤◌, ◌<◌, ◌≡◌, refl, sym, ap, ap₂, ◌∙◌, inl, inr, Bool, true, false, List, [], ◌∷◌, none,
  leb, length, length-append, Bool-cases, lookup_or, insert, lookup_or-insert,
  lookup_or-insert-other, arith, Result, ok, raise,
}
use noema.Quotas.{
  TenantQuota, Exceeded, Services, Manager, default_quota, or_else, has, add, discard, get_quota,
  get_hourly_task_count, get_active_task_count, over_budget, over_tokens, check_quota, after_sadd,
  track_active_task, after_srem, untrack_active_task,
}

pub data Op : Type 0 where
  -- Tenant, task, estimated cost, estimated tokens, time: check, and track if it passes.
  begin_op : String → String → ℕ → ℕ → ℕ → Op
  end_op : String → String → Op

length-add : (x : String) (xs : List String) → length (add x xs) ≤ length xs + 1
unfolding add
length-add x xs = elim (Bool-cases (has x xs)) [
  | inl y ↦ rw (y) (omega arith)
  | inr n ↦ rw (n) (omega (arith, length-append xs (x ∷ [])))
]

length-discard : (x : String) (xs : List String) → length (discard x xs) ≤ length xs
unfolding discard
length-discard x [] = omega arith
length-discard x (y ∷ ys) = elim (Bool-cases (str_eq x y)) [
  | inl e ↦ rw (e) (omega (arith, length-discard x ys))
  | inr n ↦ rw (n) (omega (arith, length-discard x ys))
]

leb-lt : (a b : ℕ) → leb a b ≡ false → b < a
leb-lt a b h = ground arith

module _ {W : Type 0} (services : Services W) where
  abbrev pub track_if : Result Exceeded Bool → String → String → ℕ → Manager W → Manager W
  track_if (ok passed) tenant task now m = track_active_task services tenant task now m
  track_if (raise e) tenant task now m = m

  unfoldable pub step : Op → Manager W → Manager W
  step (begin_op tenant task cost tokens now) m =
      track_if (check_quota services tenant cost tokens now m) tenant task now m
  step (end_op tenant task) m = untrack_active_task services tenant task m

  unfoldable pub run : List Op → Manager W → Manager W
  run [] m = m
  run (op ∷ ops) m = run ops (step op m)

  -- The tasks tracked in memory, and the quota in memory.
  abbrev pub active_of : String → Manager W → List String
  active_of tenant m = lookup_or [] tenant m.active_tasks

  abbrev pub quota_of : String → Manager W → TenantQuota
  quota_of tenant m = lookup_or default_quota tenant m.defaults_cache

  pub IsWithin : Manager W → Type 0
  IsWithin m =
      (tenant : String) → length (active_of tenant m) ≤ (quota_of tenant m).max_concurrent_tasks

  -- Other tenants' tasks stay as they are when one tenant's are assigned.
  assign-IsWithin :
      (tenant : String) (tasks : List String) (m m' : Manager W)
      → length tasks ≤ (quota_of tenant m).max_concurrent_tasks
      → m'.active_tasks ≡ insert tenant tasks m.active_tasks
      → m'.defaults_cache ≡ m.defaults_cache
      → IsWithin m
      → IsWithin m'
  unfolding IsWithin
  assign-IsWithin tenant tasks m m' few assigned same i k =
      let quota : (quota_of k m').max_concurrent_tasks ≡ (quota_of k m).max_concurrent_tasks =
        ap (λ d. (lookup_or default_quota k d).max_concurrent_tasks) same in
      let tasks' : length (active_of k m')
          ≡ length (lookup_or [] k (insert tenant tasks m.active_tasks)) =
        ap (λ d. length (lookup_or [] k d)) assigned in
      elim (Bool-cases (str_eq k tenant)) [
        | inl y ↦
            let here : k ≡ tenant = (eq_iff k tenant).0 y in
            omega (
              arith,
              quota,
              tasks',
              ap (λ k'. length (lookup_or [] k' (insert tenant tasks m.active_tasks))) here,
              ap length (lookup_or-insert [] tenant tasks m.active_tasks),
              ap (λ k'. (quota_of k' m).max_concurrent_tasks) here,
              few,
            )
        | inr n ↦ omega (
          arith,
          quota,
          tasks',
          ap length (lookup_or-insert-other [] k tenant tasks m.active_tasks n),
          i k,
        )
      ]

  module _ (no_quota : (tenant : String) (w : W) → services.pg_quota tenant w ≡ none)
      (no_count : (tenant : String) (w : W) → services.redis_active_count tenant w ≡ none)
      (no_sadd : (tenant task : String) (w : W) → (services.redis_sadd tenant task w).1 ≡ false)
      (no_srem : (tenant task : String) (w : W)
        → (services.redis_srem tenant task w).1 ≡ false) where
    after_sadd-IsWithin :
        (tenant task : String) (starts : List (String × List ℕ)) (m : Manager W) (x : W × Bool)
        → x.1 ≡ false
        → length (active_of tenant m) < (quota_of tenant m).max_concurrent_tasks
        → IsWithin m
        → IsWithin (after_sadd services tenant task (record m { task_starts = starts }) x)
    unfolding after_sadd
    after_sadd-IsWithin tenant task starts m (w, true) failed room i = absurd cc
    after_sadd-IsWithin tenant task starts m (w, false) failed room i =
        assign-IsWithin tenant (add task (active_of tenant m)) m _
          (omega (arith, length-add task (active_of tenant m), room)) refl refl i

    after_srem-IsWithin :
        (tenant task : String) (m : Manager W) (x : W × Bool)
        → x.1 ≡ false
        → IsWithin m
        → IsWithin (after_srem services tenant task m x)
    unfolding after_srem
    after_srem-IsWithin tenant task m (w, true) failed i = absurd cc
    after_srem-IsWithin tenant task m (w, false) failed i =
        let held : (t : String) → length (active_of t m) ≤ (quota_of t m).max_concurrent_tasks =
          unfold IsWithin in i in
        assign-IsWithin tenant (discard task (active_of tenant m)) m _
          (omega (arith, length-discard task (active_of tenant m), held tenant)) refl refl i

    -- A passed check leaves room for one more task.
    room_of :
        (tenant : String) (m : Manager W)
        → leb
            (get_quota services tenant m).max_concurrent_tasks
            (get_active_task_count services tenant m)
          ≡ false
        → length (active_of tenant m) < (quota_of tenant m).max_concurrent_tasks
    unfolding get_quota get_active_task_count
    room_of tenant m h =
        leb-lt (quota_of tenant m).max_concurrent_tasks (length (active_of tenant m)) (
          ap₂
            (λ q c.
              leb (or_else q (quota_of tenant m)).max_concurrent_tasks
                (or_else c (length (active_of tenant m))))
            (sym (no_quota tenant m.world)) (sym (no_count tenant m.world))
          ∙ h)

    begin-IsWithin :
        (tenant task : String) (cost tokens now : ℕ) (m : Manager W)
        → IsWithin m
        → IsWithin (track_if (check_quota services tenant cost tokens now m) tenant task now m)
    unfolding check_quota
    begin-IsWithin tenant task cost tokens now m i =
        elim (Bool-cases (over_budget services tenant cost m)) [
          | inl y ↦ rw (track_if, y) i
          | inr a ↦ elim (Bool-cases (over_tokens services tenant tokens m)) [
            | inl y ↦ rw (track_if, a, y) i
            | inr b ↦
                elim (Bool-cases (
                  leb (get_quota services tenant m).max_tasks_per_hour
                    (get_hourly_task_count services tenant now m))) [
                      | inl y ↦ rw (track_if, a, b, y) i
                      | inr c ↦
                          elim (Bool-cases (
                            leb (get_quota services tenant m).max_concurrent_tasks
                              (get_active_task_count services tenant m))) [
                                | inl y ↦ rw (track_if, a, b, c, y) i
                                | inr d ↦
                                    rw (track_if, a, b, c, d)
                                      (unfold track_active_task in
                                        after_sadd-IsWithin tenant task _ m
                                          (services.redis_sadd tenant task m.world)
                                          (no_sadd tenant task m.world) (room_of tenant m d) i)
                              ]
                    ]
          ]
        ]

    run-keeps : (ops : List Op) (m : Manager W) → IsWithin m → IsWithin (run ops m)
    unfolding run step
    run-keeps [] m i = i
    run-keeps (begin_op tenant task cost tokens now ∷ ops) m i =
        run-keeps ops (track_if (check_quota services tenant cost tokens now m) tenant task now m)
          (begin-IsWithin tenant task cost tokens now m i)
    run-keeps (end_op tenant task ∷ ops) m i =
        run-keeps ops (untrack_active_task services tenant task m) (
          unfold untrack_active_task in
          after_srem-IsWithin tenant task m (services.redis_srem tenant task m.world)
            (no_srem tenant task m.world) i)

    -- Without Redis and with quotas held in memory: if each task is tracked at once when its check has
    -- passed, then after any run of tasks that begin and end, no tenant has more active tasks than its
    -- quota allows at one time.
    pub run-IsWithin :
        (ops : List Op) (quotas : List (String × TenantQuota)) (w : W)
        → IsWithin (
            run ops
              (record { defaults_cache = quotas; active_tasks = []; task_starts = []; world = w }))
    run-IsWithin ops quotas w =
        run-keeps ops
          (record { defaults_cache = quotas; active_tasks = []; task_starts = []; world = w })
          (unfold IsWithin in λ tenant. unfold lookup_or in omega arith)
