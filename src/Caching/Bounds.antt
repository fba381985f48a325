-- ===== src/Caching/Bounds.antt =====
-- How many entries an `LRUCache` holds.
use Prim.Native.String.{String}
use text.Mathlib.Text.{◌==◌ as str_eq}
use noema.Prelude.{
  ℕ, ◌+◌, ◌≤◌, ◌<◌, ◌≡◌, refl, arith, true, inl, inr, Bool-cases, List, [], ◌∷◌, ◌++◌, Option, some,
  Option-cases, length, length-append, leb, leb→le, ◌∙◌,
}
use noema.Caching.{
  CacheEntry, LruCache, has, find, remove, move_to_end, assign, is_expired, delete, get, make_room,
  set, delete_each, invalidate_tag, clear, empty, evict, evict_from, touch,
}

module _ {V : Type 0} where
  length-remove : (key : String) (es : List (CacheEntry V)) → length (remove key es) ≤ length es
  unfolding remove
  length-remove key [] = omega arith
  length-remove key (e ∷ es) = ground (arith, length-remove key es)

  length-move_to_end :
      (key : String) (es : List (CacheEntry V)) → length (move_to_end key es) ≡ length es
  unfolding move_to_end
  length-move_to_end key [] = refl
  length-move_to_end key (e ∷ es) =
      ground (arith, length-move_to_end key es, length-append es (e ∷ []))

  has-append :
      (key : String) (es : List (CacheEntry V)) (e : CacheEntry V)
      → str_eq key e.key ≡ true
      → has key (es ++ e ∷ []) ≡ true
  has-append key [] e h = rw (h) refl
  has-append key (x ∷ es) e h = ground (arith, has-append key es e h)

  has-move_to_end :
      (key : String) (es : List (CacheEntry V))
      → has key es ≡ true
      → has key (move_to_end key es) ≡ true
  unfolding move_to_end
  has-move_to_end key [] h = h
  has-move_to_end key (e ∷ es) h = elim (Bool-cases (str_eq key e.key)) [
    | inl y ↦ rw (y) (has-append key es e y)
    | inr n ↦ ground (arith, has-move_to_end key es)
  ]

  length-assign-le :
      (key : String) (x : CacheEntry V) (es : List (CacheEntry V))
      → length (assign key x es) ≤ length es + 1
  unfolding assign
  length-assign-le key x [] = omega arith
  length-assign-le key x (e ∷ es) = ground (arith, length-assign-le key x es)

  length-assign-has :
      (key : String) (x : CacheEntry V) (es : List (CacheEntry V))
      → has key es ≡ true
      → length (assign key x es) ≡ length es
  unfolding assign
  length-assign-has key x [] h = ground arith
  length-assign-has key x (e ∷ es) h = ground (arith, length-assign-has key x es)

  has-find :
      (key : String) (es : List (CacheEntry V)) (x : CacheEntry V)
      → find key es ≡ some x
      → has key es ≡ true
  unfolding find
  has-find key [] x h = absurd cc
  has-find key (e ∷ es) x h = elim (Bool-cases (str_eq key e.key)) [
    | inl y ↦ rw (y) refl
    | inr n ↦ rw (n) (has-find key es x (rw (n) at h))
  ]

  max_size-evict_from :
      (es : List (CacheEntry V)) (c : LruCache V) → (evict_from es c).max_size ≡ c.max_size
  max_size-evict_from [] c = refl
  max_size-evict_from (e ∷ es) c = refl

-- The operations that change a cache, with the time at which each is called.
pub data Op (V : Type 0) : Type 0 where
  op_get : ℕ → String → Op V
  op_set : ℕ → String → V → Option ℕ → List String → Op V
  op_delete : String → Op V
  op_invalidate_tag : String → Op V
  op_clear : Op V

unfoldable pub step : {V : Type 0} → Op V → LruCache V → LruCache V
step (Op.op_get now key) c = (get now key c).0
step (Op.op_set now key value ttl tags) c = set now key value ttl tags c
step (Op.op_delete key) c = (delete key c).0
step (Op.op_invalidate_tag tag) c = (invalidate_tag tag c).0
step Op.op_clear c = (clear c).0

unfoldable pub run : {V : Type 0} → List (Op V) → LruCache V → LruCache V
run [] c = c
run (o ∷ os) c = run os (step o c)

-- The cache has its configured size and holds no more entries than that.
unfoldable pub IsWithin : {V : Type 0} → ℕ → LruCache V → Type 0
IsWithin n c = (c.max_size ≡ n) × (length c.entries ≤ n)

module _ {V : Type 0} (n : ℕ) where
  delete-IsWithin : (key : String) (c : LruCache V) → IsWithin n c → IsWithin n (delete key c).0
  unfolding IsWithin delete
  delete-IsWithin key c h = elim (Option-cases (find key c.entries)) [
    | inl e ↦ rw (delete, e) h
    | inr (x, e) ↦ rw (delete, e) (h.0, omega (arith, h.1, length-remove key c.entries))
  ]

  get-IsWithin :
      (now : ℕ) (key : String) (c : LruCache V) → IsWithin n c → IsWithin n (get now key c).0
  unfolding IsWithin get
  get-IsWithin now key c h = elim (Option-cases (find key c.entries)) [
    | inl e ↦ rw (get, e) h
    | inr (x, e) ↦ elim (Bool-cases (is_expired now x)) [
      | inl y ↦ rw (get, e, y) (delete-IsWithin key (record c { total_gets = c.total_gets + 1 }) h)
      | inr z ↦
          rw (get, e, z)
            (
              h.0,
              omega (
                arith,
                h.1,
                length-move_to_end key (assign key (touch now x) c.entries),
                length-assign-has key (touch now x) c.entries (has-find key c.entries x e),
              ),
            )
    ]
  ]

  length-evict :
      (x : CacheEntry V) (key : String) (es : List (CacheEntry V)) (c : LruCache V)
      → 0 < n
      → c.entries ≡ es
      → n ≤ length es
      → length es ≤ n
      → length (assign key x (evict_from es c).entries) ≤ n
  length-evict x key [] c p e full most = absurd (omega arith)
  length-evict x key (y ∷ es) c p e full most = omega (arith, length-assign-le key x es)

  make_room-leaves :
      (key : String) (x : CacheEntry V) (c : LruCache V)
      → 0 < n
      → IsWithin n c
      → ((make_room key c).max_size ≡ n) × (length (assign key x (make_room key c).entries) ≤ n)
  unfolding IsWithin make_room evict
  make_room-leaves key x c p h = elim (Bool-cases (has key c.entries)) [
    | inl y ↦
        rw (make_room, y)
          (
            h.0,
            omega (
              arith,
              h.1,
              length-move_to_end key c.entries,
              length-assign-has key x (move_to_end key c.entries) (has-move_to_end key c.entries y),
            ),
          )
    | inr z ↦ elim (Bool-cases (leb c.max_size (length c.entries))) [
      | inl full ↦
          rw (make_room, z, full)
            (
              max_size-evict_from c.entries c ∙ h.0,
              length-evict x key c.entries c p refl
                  (omega (arith, h.0, leb→le c.max_size (length c.entries) full)) h.1,
            )
      | inr room ↦
          rw (make_room, z, room) (h.0, ground (arith, h.0, h.1, length-assign-le key x c.entries))
    ]
  ]

  set-IsWithin :
      (now : ℕ) (key : String) (v : V) (ttl : Option ℕ) (tags : List String) (c : LruCache V)
      → 0 < n
      → IsWithin n c
      → IsWithin n (set now key v ttl tags c)
  unfolding IsWithin set
  set-IsWithin now key v ttl tags c p h = make_room-leaves key _ c p h

  delete_each-IsWithin :
      (keys : List String) (c : LruCache V) → IsWithin n c → IsWithin n (delete_each keys c)
  unfolding delete_each
  delete_each-IsWithin [] c h = h
  delete_each-IsWithin (k ∷ ks) c h = delete_each-IsWithin ks (delete k c).0 (delete-IsWithin k c h)

  step-IsWithin : (o : Op V) (c : LruCache V) → 0 < n → IsWithin n c → IsWithin n (step o c)
  unfolding step IsWithin invalidate_tag clear
  step-IsWithin (Op.op_get now key) c p h = get-IsWithin now key c h
  step-IsWithin (Op.op_set now key v ttl tags) c p h = set-IsWithin now key v ttl tags c p h
  step-IsWithin (Op.op_delete key) c p h = delete-IsWithin key c h
  step-IsWithin (Op.op_invalidate_tag tag) c p h = delete_each-IsWithin _ c h
  step-IsWithin Op.op_clear c p h = (h.0, omega arith)

  run-IsWithin : (os : List (Op V)) (c : LruCache V) → 0 < n → IsWithin n c → IsWithin n (run os c)
  unfolding run
  run-IsWithin [] c p h = h
  run-IsWithin (o ∷ os) c p h = run-IsWithin os (step o c) p (step-IsWithin o c p h)

-- Whatever is done to a new cache with a positive size, it never holds more entries than its size.
pub length-run-le-max_size :
    {V : Type 0} (max_size default_ttl : ℕ) (os : List (Op V))
    → 0 < max_size
    → length (run os (empty max_size default_ttl)).entries ≤ max_size
unfolding IsWithin
length-run-le-max_size max_size default_ttl os p =
    (run-IsWithin max_size os (empty max_size default_ttl) p (refl, omega arith)).1
