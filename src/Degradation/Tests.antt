-- ===== src/Degradation/Tests.antt =====
-- The cache of noema/resilience/graceful_degradation.py over a Redis that answers a number of calls and
-- then fails.
use Prim.Native.String.{String}
use text.Mathlib.Text.{◌==◌ as str_eq}
use noema.Prelude.{
  ℕ, zero, suc, ◌≡◌, refl, sym, ap, ◌∙◌, Bool, true, false, List, [], ◌∷◌, Option, none, some,
  arith, lookup, insert, erase, lookup-insert, lookup-insert-other, lookup-erase,
  lookup-erase-other,
}
use noema.Degradation.{Reply, Services, init}
use noema.Degradation.Outage.{CacheOp, RedisLaws, observed, promised, observed-init}

abbrev World : Type 0
World = ℕ × List (String × ℕ)

-- The calls that Redis still answers, and what it holds.
abbrev answer_get : String → World → World × Reply (Option ℕ)
answer_get key (zero, d) = ((zero, d), Reply.failed)
answer_get key (suc n, d) = ((n, d), Reply.replied (lookup key d))

abbrev answer_set : String → ℕ → World → World × Bool
answer_set key v (zero, d) = ((zero, d), false)
answer_set key v (suc n, d) = ((n, insert key v d), true)

abbrev answer_delete : String → World → World × Bool
answer_delete key (zero, d) = ((zero, d), false)
answer_delete key (suc n, d) = ((n, erase key d), true)

abbrev services : Services World ℕ
services = record {
  has_redis = true;
  redis_ping = λ w. (w, true);
  redis_get = answer_get;
  redis_set = answer_set;
  redis_setex = λ key ttl. answer_set key;
  redis_delete = answer_delete;
  has_pg = false;
  pg_ping = λ w. (w, false);
  pg_execute = λ q args w. (w, Reply.failed);
  pg_fetch = λ q args w. (w, Reply.failed);
  write_file = λ q n w. (w, true);
}

abbrev content : World → String → Option ℕ
content w key = lookup key w.1

abbrev found_in : Reply (Option ℕ) → Option ℕ
found_in (Reply.replied found) = found
found_in Reply.failed = none

abbrev is_reply : Reply (Option ℕ) → Bool
is_reply (Reply.replied found) = true
is_reply Reply.failed = false

differ : false ≡ true → ⊥
differ h = ground arith

services-got :
    (key : String) (w w' : World) (found : Option ℕ)
    → answer_get key w ≡ (w', Reply.replied found)
    → (found ≡ content w key) × ((k : String) → content w' k ≡ content w k)
services-got key (zero, d) w' found e = absurd (differ (ap (λ x. is_reply x.1) e))
services-got key (suc n, d) w' found e =
    (sym (ap (λ x. found_in x.1) e), λ k. sym (ap (λ x. content x.0 k) e))

services-was_set :
    (key : String) (v : ℕ) (w w' : World)
    → answer_set key v w ≡ (w', true)
    → (content w' key ≡ some v) × ((k : String) → str_eq k key ≡ false → content w' k ≡ content w k)
services-was_set key v (zero, d) w' e = absurd (differ (ap (λ x. x.1) e))
services-was_set key v (suc n, d) w' e = (
  sym (ap (λ x. content x.0 key) e) ∙ lookup-insert key v d,
  λ k h. sym (ap (λ x. content x.0 k) e) ∙ lookup-insert-other k key v d h,
)

services-deleted :
    (key : String) (w w' : World)
    → answer_delete key w ≡ (w', true)
    → (content w' key ≡ none) × ((k : String) → str_eq k key ≡ false → content w' k ≡ content w k)
services-deleted key (zero, d) w' e = absurd (differ (ap (λ x. x.1) e))
services-deleted key (suc n, d) w' e = (
  sym (ap (λ x. content x.0 key) e) ∙ lookup-erase key d,
  λ k h. sym (ap (λ x. content x.0 k) e) ∙ lookup-erase-other k key d h,
)

laws : RedisLaws services content
laws = record { got = services-got; was_set = services-was_set; deleted = services-deleted }

-- Redis fails at the third call.
abbrev ops : List (CacheOp ℕ)
ops =
    CacheOp.set_op "a" 1
    ∷ CacheOp.get_op "a"
    ∷ CacheOp.set_op "b" 2
    ∷ CacheOp.delete_op "a"
    ∷ CacheOp.get_op "a"
    ∷ CacheOp.get_op "b"
    ∷ []

observed-init_example : observed services ops (init services (2, [])) ≡ promised ops []
observed-init_example = observed-init services content laws ops (2, []) (λ k. unfold lookup in refl)
