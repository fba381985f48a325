-- ===== src/Degradation.antt =====
-- The class `GracefulDegradation` of noema/resilience/graceful_degradation.py. Redis and PostgreSQL are
-- services on a world `W`: a call replies, or fails by an exception or its timeout. The files of the
-- fallback directory are a list, newest last.
pub mod Outage
mod Tests
use Prim.Native.String.{String}
use noema.Prelude.{
  ℕ, zero, suc, Bool, true, false, ◌&&◌, List, [], ◌∷◌, ◌++◌, Option, none, some, if◌then◌else◌,
  length, lookup, insert, erase,
}

pub data Reply (A : Type 0) : Type 0 where
  replied : A → Reply A
  failed : Reply A

pub record Services (W V : Type 0) : Type 0 where
  pub has_redis : Bool
  pub redis_ping : W → W × Bool
  pub redis_get : String → W → W × Reply (Option V)
  pub redis_set : String → V → W → W × Bool
  pub redis_setex : String → ℕ → V → W → W × Bool
  pub redis_delete : String → W → W × Bool
  pub has_pg : Bool
  pub pg_ping : W → W × Bool
  pub pg_execute : String → List V → W → W × Reply V
  pub pg_fetch : String → List V → W → W × Reply (List V)
  -- Is the file written?
  pub write_file : String → ℕ → W → W × Bool

-- What `_write_fallback` keeps of a query: its text and the number of its arguments.
pub record FallbackQuery : Type 0 where
  pub query : String
  pub arg_count : ℕ

pub record Degradation (W V : Type 0) : Type 0 where
  pub memory_cache : List (String × V)
  pub redis_healthy : Bool
  pub pg_healthy : Bool
  pub fallback : List FallbackQuery
  pub world : W

module _ {W V : Type 0} (services : Services W V) where
  abbrev pub init : W → Degradation W V
  init w = record {
    memory_cache = [];
    redis_healthy = services.has_redis;
    pg_healthy = services.has_pg;
    fallback = [];
    world = w;
  }

  unfoldable pub check_redis : Degradation W V → Degradation W V
  check_redis d =
      if services.has_redis
      then (let (w, ok) = services.redis_ping d.world in record d { redis_healthy = ok; world = w })
      else d

  unfoldable pub check_pg : Degradation W V → Degradation W V
  check_pg d =
      if services.has_pg
      then (let (w, ok) = services.pg_ping d.world in record d { pg_healthy = ok; world = w })
      else d

  unfoldable pub check_health : Degradation W V → Degradation W V
  unfolding check_redis check_pg
  check_health d = check_pg (check_redis d)

  unfoldable pub uses_redis : Degradation W V → Bool
  uses_redis d = d.redis_healthy && services.has_redis

  unfoldable pub after_get :
      String → Degradation W V → W × Reply (Option V) → Degradation W V × Option V
  after_get key d (w, Reply.replied found) = (record d { world = w }, found)
  after_get key d (w, Reply.failed) =
      (record d { redis_healthy = false; world = w }, lookup key d.memory_cache)

  unfoldable pub cache_get : String → Degradation W V → Degradation W V × Option V
  unfolding after_get uses_redis
  cache_get key d =
      if uses_redis d
      then after_get key d (services.redis_get key d.world)
      else (d, lookup key d.memory_cache)

  -- The `except` of `cache_set` and `cache_delete`.
  unfoldable pub after_call : Degradation W V → W × Bool → Degradation W V
  after_call d (w, true) = record d { world = w }
  after_call d (w, false) = record d { redis_healthy = false; world = w }

  -- `if ttl`: a time to live of 0 counts as none.
  unfoldable pub send : String → V → Option ℕ → W → W × Bool
  send key value none w = services.redis_set key value w
  send key value (some zero) w = services.redis_set key value w
  send key value (some (suc ttl)) w = services.redis_setex key (suc ttl) value w

  unfoldable pub cache_set : String → V → Option ℕ → Degradation W V → Degradation W V
  unfolding send after_call uses_redis
  cache_set key value ttl d =
      let d' = record d { memory_cache = insert key value d.memory_cache } in
      if uses_redis d then after_call d' (send key value ttl d.world) else d'

  unfoldable pub cache_delete : String → Degradation W V → Degradation W V
  unfolding after_call uses_redis
  cache_delete key d =
      let d' = record d { memory_cache = erase key d.memory_cache } in
      if uses_redis d then after_call d' (services.redis_delete key d.world) else d'

  unfoldable pub after_write : FallbackQuery → Degradation W V → W × Bool → Degradation W V
  after_write q d (w, true) = record d { fallback = d.fallback ++ q ∷ []; world = w }
  after_write q d (w, false) = record d { world = w }

  unfoldable pub write_fallback : String → List V → Degradation W V → Degradation W V
  unfolding after_write
  write_fallback query args d =
      after_write (record { query = query; arg_count = length args }) d
        (services.write_file query (length args) d.world)

  unfoldable pub after_execute :
      String → List V → Degradation W V → W × Reply V → Degradation W V × Option V
  unfolding write_fallback
  after_execute query args d (w, Reply.replied v) = (record d { world = w }, some v)
  after_execute query args d (w, Reply.failed) =
      (write_fallback query args (record d { pg_healthy = false; world = w }), none)

  unfoldable pub db_execute : String → List V → Degradation W V → Degradation W V × Option V
  unfolding after_execute write_fallback
  db_execute query args d =
      if d.pg_healthy && services.has_pg
      then after_execute query args d (services.pg_execute query args d.world)
      else (write_fallback query args d, none)

  unfoldable pub after_fetch : Degradation W V → W × Reply (List V) → Degradation W V × List V
  after_fetch d (w, Reply.replied rows) = (record d { world = w }, rows)
  after_fetch d (w, Reply.failed) = (record d { pg_healthy = false; world = w }, [])

  unfoldable pub db_fetch : String → List V → Degradation W V → Degradation W V × List V
  unfolding after_fetch
  db_fetch query args d =
      if d.pg_healthy && services.has_pg
      then after_fetch d (services.pg_fetch query args d.world)
      else (d, [])
