-- ===== src/Degradation/Outage.antt =====
-- The cache of noema/resilience/graceful_degradation.py beside a plain dictionary, while Redis may fail
-- at any time.
use Prim.Native.String.{String}
use text.Mathlib.Text.{◌==◌ as str_eq}
use text.Mathlib.TextEquality.{eq_iff}
use noema.Prelude.{
  ◌≡◌, refl, sym, ap, ap₂, ◌∙◌, ◌⊎◌, inl, inr, Bool, true, false, List, [], ◌∷◌, Option, none, some,
  arith, Bool-cases, lookup, insert, erase, lookup-insert, lookup-insert-other, lookup-erase,
  lookup-erase-other, subst,
}
use noema.Degradation.{
  Reply, Services, Degradation, uses_redis, after_get, cache_get, after_call, send, cache_set,
  cache_delete, init,
}

pub data CacheOp (V : Type 0) : Type 0 where
  get_op : String → CacheOp V
  set_op : String → V → CacheOp V
  delete_op : String → CacheOp V

-- What a caller sees: the values that its lookups find.
module _ {V : Type 0} where
  -- The cache that is promised: one dictionary.
  unfoldable pub promised : List (CacheOp V) → List (String × V) → List (Option V)
  promised [] d = []
  promised (CacheOp.get_op key ∷ ops) d = lookup key d ∷ promised ops d
  promised (CacheOp.set_op key v ∷ ops) d = promised ops (insert key v d)
  promised (CacheOp.delete_op key ∷ ops) d = promised ops (erase key d)

module _ {W V : Type 0} (services : Services W V) where
  unfoldable pub observed : List (CacheOp V) → Degradation W V → List (Option V)
  observed [] d = []
  observed (CacheOp.get_op key ∷ ops) d =
      let (d', found) = cache_get services key d in found ∷ observed ops d'
  observed (CacheOp.set_op key v ∷ ops) d = observed ops (cache_set services key v none d)
  observed (CacheOp.delete_op key ∷ ops) d = observed ops (cache_delete services key d)

differ : true ≡ false → ⊥
differ h = ground arith

-- Redis as far as the cache relies on it: `content` is what a world's Redis holds, and a call that
-- replies reads or changes one key. Nothing is said of a call that fails.
pub record RedisLaws {W V : Type 0} (services : Services W V) (content : W → String → Option V)
    : Type 0 where
  pub got :
      (key : String) (w w' : W) (found : Option V)
      → services.redis_get key w ≡ (w', Reply.replied found)
      → (found ≡ content w key) × ((k : String) → content w' k ≡ content w k)
  pub was_set :
      (key : String) (v : V) (w w' : W)
      → services.redis_set key v w ≡ (w', true)
      → (content w' key ≡ some v)
        × ((k : String) → str_eq k key ≡ false → content w' k ≡ content w k)
  pub deleted :
      (key : String) (w w' : W)
      → services.redis_delete key w ≡ (w', true)
      → (content w' key ≡ none) × ((k : String) → str_eq k key ≡ false → content w' k ≡ content w k)

module _ {W V : Type 0} (services : Services W V) (content : W → String → Option V)
    (laws : RedisLaws services content) where
  -- The cache in memory is the dictionary, and so is Redis as long as it is used.
  Agrees : Degradation W V → List (String × V) → Type 0
  Agrees d dict =
      (d.memory_cache ≡ dict)
      × ((uses_redis services d ≡ false) ⊎ ((k : String) → content d.world k ≡ lookup k dict))

  in_redis :
      (d : Degradation W V) (dict : List (String × V))
      → uses_redis services d ≡ true
      → (uses_redis services d ≡ false) ⊎ ((k : String) → content d.world k ≡ lookup k dict)
      → (k : String) → content d.world k ≡ lookup k dict
  in_redis d dict y (inl n) k = absurd (differ (sym y ∙ n))
  in_redis d dict y (inr same) k = same k

  after_get-Agrees :
      (key : String) (d : Degradation W V) (dict : List (String × V)) (x : W × Reply (Option V))
      → services.redis_get key d.world ≡ x
      → uses_redis services d ≡ true
      → Agrees d dict
      → ((after_get services key d x).1 ≡ lookup key dict)
        × Agrees (after_get services key d x).0 dict
  unfolding Agrees after_get uses_redis
  after_get-Agrees key d dict (w, Reply.replied found) called y (m, r) =
      let (answer, kept) = laws.got key d.world w found called in
      (answer ∙ in_redis d dict y r key, (m, inr (λ k. kept k ∙ in_redis d dict y r k)))
  after_get-Agrees key d dict (w, Reply.failed) called y (m, r) = (ap (lookup key) m, (m, inl refl))

  cache_get-Agrees :
      (key : String) (d : Degradation W V) (dict : List (String × V))
      → Agrees d dict
      → ((cache_get services key d).1 ≡ lookup key dict) × Agrees (cache_get services key d).0 dict
  unfolding cache_get Agrees
  cache_get-Agrees key d dict a = elim (Bool-cases (uses_redis services d)) [
    | inl y ↦ rw (y) (after_get-Agrees key d dict (services.redis_get key d.world) refl y a)
    | inr n ↦ rw (n) (ap (lookup key) a.0, a)
  ]

  -- A dictionary that one call has changed at one key.
  Changed : (String → Option V) → (String → Option V) → String → Type 0
  Changed new old key = (k : String) → str_eq k key ≡ false → new k ≡ old k

  after_call-Agrees :
      (d : Degradation W V) (dict : List (String × V)) (x : W × Bool)
      → d.memory_cache ≡ dict
      → (x.1 ≡ false) ⊎ ((k : String) → content x.0 k ≡ lookup k dict)
      → Agrees (after_call services d x) dict
  unfolding Agrees after_call uses_redis
  after_call-Agrees d dict (w, true) m (inl n) = absurd (differ n)
  after_call-Agrees d dict (w, true) m (inr same) = (m, inr same)
  after_call-Agrees d dict (w, false) m r = (m, inl refl)

  same_after_set :
      (key : String) (v : V) (d : Degradation W V) (dict : List (String × V)) (x : W × Bool)
      → services.redis_set key v d.world ≡ x
      → ((k : String) → content d.world k ≡ lookup k dict)
      → (x.1 ≡ false) ⊎ ((k : String) → content x.0 k ≡ lookup k (insert key v dict))
  same_after_set key v d dict (w, false) called same = inl refl
  same_after_set key v d dict (w, true) called same =
      let (new, kept) = laws.was_set key v d.world w called in
      inr (λ k. elim (Bool-cases (str_eq k key)) [
        | inl y ↦
            subst (λ k'. content w k' ≡ lookup k' (insert key v dict)) (sym ((eq_iff k key).0 y))
              (new ∙ sym (lookup-insert key v dict))
        | inr n ↦ kept k n ∙ same k ∙ sym (lookup-insert-other k key v dict n)
      ])

  same_after_delete :
      (key : String) (d : Degradation W V) (dict : List (String × V)) (x : W × Bool)
      → services.redis_delete key d.world ≡ x
      → ((k : String) → content d.world k ≡ lookup k dict)
      → (x.1 ≡ false) ⊎ ((k : String) → content x.0 k ≡ lookup k (erase key dict))
  same_after_delete key d dict (w, false) called same = inl refl
  same_after_delete key d dict (w, true) called same =
      let (new, kept) = laws.deleted key d.world w called in
      inr (λ k. elim (Bool-cases (str_eq k key)) [
        | inl y ↦
            subst (λ k'. content w k' ≡ lookup k' (erase key dict)) (sym ((eq_iff k key).0 y))
              (new ∙ sym (lookup-erase key dict))
        | inr n ↦ kept k n ∙ same k ∙ sym (lookup-erase-other k key dict n)
      ])

  cache_set-Agrees :
      (key : String) (v : V) (d : Degradation W V) (dict : List (String × V))
      → Agrees d dict
      → Agrees (cache_set services key v none d) (insert key v dict)
  unfolding cache_set send Agrees
  cache_set-Agrees key v d dict (m, r) = elim (Bool-cases (uses_redis services d)) [
    | inl y ↦ rw (y) (
        after_call-Agrees (record d { memory_cache = insert key v d.memory_cache })
          (insert key v dict) (services.redis_set key v d.world) (ap (insert key v) m)
          (same_after_set key v d dict (services.redis_set key v d.world) refl
            (in_redis d dict y r)))
    | inr n ↦ rw (n) (ap (insert key v) m, inl (unfold uses_redis in n))
  ]

  cache_delete-Agrees :
      (key : String) (d : Degradation W V) (dict : List (String × V))
      → Agrees d dict
      → Agrees (cache_delete services key d) (erase key dict)
  unfolding cache_delete Agrees
  cache_delete-Agrees key d dict (m, r) = elim (Bool-cases (uses_redis services d)) [
    | inl y ↦ rw (y) (
        after_call-Agrees (record d { memory_cache = erase key d.memory_cache }) (erase key dict)
          (services.redis_delete key d.world) (ap (erase key) m)
          (same_after_delete key d dict (services.redis_delete key d.world) refl
            (in_redis d dict y r)))
    | inr n ↦ rw (n) (ap (erase key) m, inl (unfold uses_redis in n))
  ]

  observed-promised :
      (ops : List (CacheOp V)) (d : Degradation W V) (dict : List (String × V))
      → Agrees d dict
      → observed services ops d ≡ promised ops dict
  unfolding observed promised
  observed-promised [] d dict a = refl
  observed-promised (CacheOp.get_op key ∷ ops) d dict a =
      let (found, a') = cache_get-Agrees key d dict a in
      ap₂ (λ o os. o ∷ os) found (observed-promised ops (cache_get services key d).0 dict a')
  observed-promised (CacheOp.set_op key v ∷ ops) d dict a =
      observed-promised ops (cache_set services key v none d) (insert key v dict)
        (cache_set-Agrees key v d dict a)
  observed-promised (CacheOp.delete_op key ∷ ops) d dict a =
      observed-promised ops (cache_delete services key d) (erase key dict)
        (cache_delete-Agrees key d dict a)

  -- Let Redis be empty at the start, and obey its laws in each call that replies. Whatever calls fail, at
  -- whatever time, the lookups of a run of lookups, writes without a time to live, and deletions find what
  -- they would find in one dictionary, as long as no health check takes Redis into use again.
  pub observed-init :
      (ops : List (CacheOp V)) (w : W)
      → ((k : String) → content w k ≡ none)
      → observed services ops (init services w) ≡ promised ops []
  unfolding lookup
  observed-init ops w empty =
      observed-promised ops (init services w) [] (unfold Agrees in (refl, inr empty))
