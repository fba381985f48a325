-- ===== src/Quotas.antt =====
-- The class `QuotaManager` of noema/billing/quotas.py. Money is counted in ten-thousandths of a dollar and time
-- in seconds. A query of PostgreSQL or Redis is a service that gives no answer where there is none, or where
-- it fails.
pub mod Concurrency
mod Tests
use Prim.Native.String.{String}
use text.Mathlib.Text.{◌==◌ as str_eq}
use noema.Prelude.{
  ℕ, suc, ◌+◌, Bool, true, false, ◌&&◌, List, [], ◌∷◌, ◌++◌, Option, none, some, ltb, leb,
  if◌then◌else◌, length, lookup_or, insert, Result, ok, raise,
}

pub record TenantQuota : Type 0 where
  pub monthly_budget : ℕ
  pub max_concurrent_tasks : ℕ
  pub max_tasks_per_hour : ℕ
  pub max_input_tokens_per_task : ℕ

-- What a new `TenantQuota` holds.
unfoldable pub default_quota : TenantQuota
default_quota = record {
  monthly_budget = 1000000;
  max_concurrent_tasks = 5;
  max_tasks_per_hour = 100;
  max_input_tokens_per_task = 100000;
}

pub data Exceeded : Type 0 where
  monthly_budget input_tokens hourly_limit concurrent_tasks : Exceeded

pub record Services (W : Type 0) : Type 0 where
  pub pg_quota : String → W → Option TenantQuota
  pub pg_monthly_cost : String → W → Option ℕ
  pub redis_monthly_cost : String → W → Option ℕ
  pub pg_hourly_count : String → W → Option ℕ
  pub redis_active_count : String → W → Option ℕ
  pub pg_set_quota : String → TenantQuota → W → W
  -- Has Redis taken the task into the tenant's set, or out of it?
  pub redis_sadd : String → String → W → W × Bool
  pub redis_srem : String → String → W → W × Bool

pub record Manager (W : Type 0) : Type 0 where
  pub defaults_cache : List (String × TenantQuota)
  pub active_tasks : List (String × List String)
  pub task_starts : List (String × List ℕ)
  pub world : W

abbrev pub or_else : {A : Type 0} → Option A → A → A
or_else none a = a
or_else (some b) a = b

abbrev pub has : String → List String → Bool
has x [] = false
has x (y ∷ ys) = if str_eq x y then true else has x ys

-- `set.add` and `set.discard`
unfoldable pub add : String → List String → List String
add x xs = if has x xs then xs else xs ++ x ∷ []

unfoldable pub discard : String → List String → List String
discard x [] = []
discard x (y ∷ ys) = let rest = discard x ys in if str_eq x y then rest else y ∷ rest

-- The starts that are at most `age` seconds old.
unfoldable pub within : ℕ → ℕ → List ℕ → List ℕ
within age now [] = []
within age now (t ∷ ts) =
    let rest = within age now ts in if leb now (t + age) then t ∷ rest else rest

module _ {W : Type 0} (services : Services W) where
  unfoldable pub get_quota : String → Manager W → TenantQuota
  unfolding default_quota
  get_quota tenant m =
      or_else (services.pg_quota tenant m.world) (lookup_or default_quota tenant m.defaults_cache)

  unfoldable pub set_quota : String → TenantQuota → Manager W → Manager W
  set_quota tenant quota m = record m {
    defaults_cache = insert tenant quota m.defaults_cache;
    world = services.pg_set_quota tenant quota m.world;
  }

  unfoldable pub get_monthly_cost : String → Manager W → ℕ
  get_monthly_cost tenant m =
      or_else (services.pg_monthly_cost tenant m.world)
        (or_else (services.redis_monthly_cost tenant m.world) 0)

  unfoldable pub get_hourly_task_count : String → ℕ → Manager W → ℕ
  unfolding within
  get_hourly_task_count tenant now m =
      or_else (services.pg_hourly_count tenant m.world)
        (length (within 3600 now (lookup_or [] tenant m.task_starts)))

  unfoldable pub get_active_task_count : String → Manager W → ℕ
  get_active_task_count tenant m =
      or_else (services.redis_active_count tenant m.world)
        (length (lookup_or [] tenant m.active_tasks))

  unfoldable pub over_budget : String → ℕ → Manager W → Bool
  unfolding get_quota get_monthly_cost
  over_budget tenant estimated_cost m =
      ltb 0 estimated_cost
      && ltb (get_quota tenant m).monthly_budget (get_monthly_cost tenant m + estimated_cost)

  unfoldable pub over_tokens : String → ℕ → Manager W → Bool
  unfolding get_quota
  over_tokens tenant tokens m =
      let cap = (get_quota tenant m).max_input_tokens_per_task in
      ltb 0 tokens && ltb 0 cap && ltb cap tokens

  unfoldable pub check_quota : String → ℕ → ℕ → ℕ → Manager W → Result Exceeded Bool
  unfolding over_budget over_tokens get_quota get_hourly_task_count get_active_task_count
  check_quota tenant estimated_cost tokens now m =
      if over_budget tenant estimated_cost m
      then raise Exceeded.monthly_budget
      else if over_tokens tenant tokens m
      then raise Exceeded.input_tokens
      else if leb (get_quota tenant m).max_tasks_per_hour (get_hourly_task_count tenant now m)
      then raise Exceeded.hourly_limit
      else if leb (get_quota tenant m).max_concurrent_tasks (get_active_task_count tenant m)
      then raise Exceeded.concurrent_tasks
      else ok true

  unfoldable pub after_sadd : String → String → Manager W → W × Bool → Manager W
  unfolding add
  after_sadd tenant task m (w, true) = record m { world = w }
  after_sadd tenant task m (w, false) = record m {
    active_tasks = insert tenant (add task (lookup_or [] tenant m.active_tasks)) m.active_tasks;
    world = w;
  }

  unfoldable pub track_active_task : String → String → ℕ → Manager W → Manager W
  unfolding after_sadd within
  track_active_task tenant task now m =
      let starts = within 7200 now (lookup_or [] tenant m.task_starts ++ now ∷ []) in
      let m' = record m { task_starts = insert tenant starts m.task_starts } in
      after_sadd tenant task m' (services.redis_sadd tenant task m.world)

  -- Discarding from a new empty set changes nothing.
  unfoldable pub after_srem : String → String → Manager W → W × Bool → Manager W
  unfolding discard
  after_srem tenant task m (w, true) = record m { world = w }
  after_srem tenant task m (w, false) = record m {
    active_tasks = insert tenant (discard task (lookup_or [] tenant m.active_tasks)) m.active_tasks;
    world = w;
  }

  unfoldable pub untrack_active_task : String → String → Manager W → Manager W
  unfolding after_srem
  untrack_active_task tenant task m =
      after_srem tenant task m (services.redis_srem tenant task m.world)
