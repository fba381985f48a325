-- ===== src/Caching/Lookup.antt =====
-- What an `LRUCache` answers after a change.
use Prim.Native.String.{String}
use text.Mathlib.Text.{◌==◌ as str_eq}
use text.Mathlib.TextPositions.{eq_refl}
use noema.Prelude.{
  ℕ, ◌+◌, ◌≤◌, ◌<◌, ◌≡◌, refl, arith, true, false, ◌⊎◌, inl, inr, Bool-cases, List, [], ◌∷◌, Option,
  none, some, Option-cases, leb, length, ap,
}
use noema.Caching.{
  CacheEntry, LruCache, find, remove, assign, is_expired, delete, get, make_room, set, or_default,
  has, evict, evict_from,
}

module _ {V : Type 0} where
  find-assign :
      (key : String) (x : CacheEntry V) (es : List (CacheEntry V))
      → str_eq key x.key ≡ true
      → find key (assign key x es) ≡ some x
  unfolding find assign
  find-assign key x [] e = rw (e) refl
  find-assign key x (y ∷ es) e = elim (Bool-cases (str_eq key y.key)) [
    | inl h ↦ rw (h, find, e) refl
    | inr h ↦ rw (h, find, h) (find-assign key x es e)
  ]

  pub find-remove : (key : String) (es : List (CacheEntry V)) → find key (remove key es) ≡ none
  unfolding find remove
  find-remove key [] = refl
  find-remove key (y ∷ es) = elim (Bool-cases (str_eq key y.key)) [
    | inl h ↦ rw (h) (find-remove key es)
    | inr h ↦ rw (h, find, h) (find-remove key es)
  ]

  get-found :
      (now : ℕ) (key : String) (c : LruCache V) (e : CacheEntry V)
      → find key c.entries ≡ some e
      → ((is_expired now e ≡ false) × ((get now key c).1 ≡ some e.value))
        ⊎ ((is_expired now e ≡ true) × ((get now key c).1 ≡ none))
  unfolding get
  get-found now key c e h = elim (Bool-cases (is_expired now e)) [
    | inl y ↦ inr (y, rw (get, h, y) refl)
    | inr n ↦ inl (n, rw (get, h, n) refl)
  ]

  pub get-missing :
      (now : ℕ) (key : String) (c : LruCache V)
      → find key c.entries ≡ none
      → (get now key c).1 ≡ none
  unfolding get
  get-missing now key c h = rw (get, h) refl

  default_ttl-evict_from :
      (es : List (CacheEntry V)) (c : LruCache V) → (evict_from es c).default_ttl ≡ c.default_ttl
  default_ttl-evict_from [] c = refl
  default_ttl-evict_from (e ∷ es) c = refl

  default_ttl-make_room :
      (key : String) (c : LruCache V) → (make_room key c).default_ttl ≡ c.default_ttl
  unfolding make_room evict
  default_ttl-make_room key c = elim (Bool-cases (has key c.entries)) [
    | inl y ↦ rw (make_room, y) refl
    | inr n ↦ elim (Bool-cases (leb c.max_size (length c.entries))) [
      | inl y ↦ rw (make_room, n, y) (default_ttl-evict_from c.entries c)
      | inr z ↦ rw (make_room, n, z) refl
    ]
  ]

  -- After a value is set, whatever the cache held, a lookup of its key finds it as long as its time
  -- to live has not passed, with the default where none or 0 is given, and finds nothing later.
  pub get-set :
      (now later : ℕ) (key : String) (v : V) (ttl : Option ℕ) (tags : List String) (c : LruCache V)
      → ((later ≤ now + or_default ttl c.default_ttl)
          × ((get later key (set now key v ttl tags c)).1 ≡ some v))
        ⊎ ((now + or_default ttl c.default_ttl < later)
            × ((get later key (set now key v ttl tags c)).1 ≡ none))
  unfolding set is_expired
  get-set now later key v ttl tags c =
      let entry : CacheEntry V = record {
        key = key;
        value = v;
        created_at = now;
        ttl_seconds = or_default ttl (make_room key c).default_ttl;
        access_count = 0;
        last_accessed = now;
        tags = tags;
      } in
      let same = ap (or_default ttl) (default_ttl-make_room key c) in
      elim (get-found later key (set now key v ttl tags c) entry
        (find-assign key entry _ (eq_refl key))) [
          | inl (n, g) ↦ inl (ground (arith, n, same), g)
          | inr (y, g) ↦ inr (ground (arith, y, same), g)
        ]

  -- After a key is deleted, a lookup of it finds nothing at any time.
  pub get-delete :
      (now : ℕ) (key : String) (c : LruCache V) → (get now key (delete key c).0).1 ≡ none
  unfolding delete
  get-delete now key c = elim (Option-cases (find key c.entries)) [
    | inl h ↦ rw (delete, h) (get-missing now key c h)
    | inr (x, h) ↦ rw (delete, h) (get-missing now key _ (find-remove key c.entries))
  ]
