-- ===== src/Caching.antt =====
-- The classes `LRUCache` and `MultiLayerCache` of noema/modules/caching/kernel.py. The ordered
-- dictionary is the list of its entries, the oldest first; the tag index is an association list of
-- lists without duplicates. Times are given by the caller, `None` is no value that is stored, and
-- the sizes in bytes, which only the statistics show, are left out.
pub mod Bounds
pub mod Lookup
pub mod Layers
pub mod Promotion
mod Tests
use Prim.Native.Nat.{min}
use Prim.Native.String.{String}
use text.Mathlib.Text.{◌==◌ as str_eq}
use noema.Prelude.{
  ℕ, zero, suc, ◌+◌, Bool, true, false, not, ◌||◌, List, [], ◌∷◌, ◌++◌, Option, none, some, ltb,
  leb, if◌then◌else◌, length,
}

pub record CacheEntry (V : Type 0) : Type 0 where
  pub key : String
  pub value : V
  pub created_at : ℕ
  pub ttl_seconds : ℕ
  pub access_count : ℕ
  pub last_accessed : ℕ
  pub tags : List String

pub record LruCache (V : Type 0) : Type 0 where
  pub max_size : ℕ
  pub default_ttl : ℕ
  pub entries : List (CacheEntry V)
  pub tag_index : List (String × List String)
  pub hits : ℕ
  pub misses : ℕ
  pub evictions : ℕ
  pub total_sets : ℕ
  pub total_gets : ℕ

abbrev pub is_member : String → List String → Bool
is_member k [] = false
is_member k (x ∷ xs) = str_eq k x || is_member k xs

-- `index.get(tag, set())`
unfoldable pub keys_of : String → List (String × List String) → List String
keys_of tag [] = []
keys_of tag ((t, ks) ∷ index) = if str_eq tag t then ks else keys_of tag index

abbrev without : String → List String → List String
without k [] = []
without k (x ∷ xs) = if str_eq k x then without k xs else x ∷ without k xs

-- `self._tag_index.get(tag, set()).discard(key)`, for each tag.
unfoldable pub discard :
    String → List String → List (String × List String) → List (String × List String)
discard key tags [] = []
discard key tags ((t, ks) ∷ index) =
    (t, if is_member t tags then without key ks else ks) ∷ discard key tags index

-- `self._tag_index.setdefault(tag, set()).add(key)`
unfoldable pub add_key : String → String → List (String × List String) → List (String × List String)
add_key key tag [] = (tag, key ∷ []) ∷ []
add_key key tag ((t, ks) ∷ index) =
    if str_eq tag t
    then (t, if is_member key ks then ks else ks ++ key ∷ []) ∷ index
    else (t, ks) ∷ add_key key tag index

unfoldable pub add_tags :
    String → List String → List (String × List String) → List (String × List String)
add_tags key [] index = index
add_tags key (tag ∷ tags) index = add_tags key tags (add_key key tag index)

-- `self._tag_index.pop(tag, None)`
unfoldable pub drop_tag : String → List (String × List String) → List (String × List String)
drop_tag tag [] = []
drop_tag tag ((t, ks) ∷ index) = if str_eq tag t then index else (t, ks) ∷ drop_tag tag index

-- `ttl or default`
unfoldable pub or_default : Option ℕ → ℕ → ℕ
or_default none default = default
or_default (some zero) default = default
or_default (some (suc n)) default = suc n

module _ {V : Type 0} where
  abbrev pub has : String → List (CacheEntry V) → Bool
  has key [] = false
  has key (e ∷ es) = str_eq key e.key || has key es

  unfoldable pub find : String → List (CacheEntry V) → Option (CacheEntry V)
  find key [] = none
  find key (e ∷ es) = if str_eq key e.key then some e else find key es

  unfoldable pub remove : String → List (CacheEntry V) → List (CacheEntry V)
  remove key [] = []
  remove key (e ∷ es) = if str_eq key e.key then remove key es else e ∷ remove key es

  unfoldable pub move_to_end : String → List (CacheEntry V) → List (CacheEntry V)
  move_to_end key [] = []
  move_to_end key (e ∷ es) = if str_eq key e.key then es ++ e ∷ [] else e ∷ move_to_end key es

  -- `self._cache[key] = entry`: a key that is present keeps its place.
  unfoldable pub assign : String → CacheEntry V → List (CacheEntry V) → List (CacheEntry V)
  assign key entry [] = entry ∷ []
  assign key entry (e ∷ es) = if str_eq key e.key then entry ∷ es else e ∷ assign key entry es

  unfoldable pub is_expired : ℕ → CacheEntry V → Bool
  is_expired now e = ltb (e.created_at + e.ttl_seconds) now

  unfoldable pub delete : String → LruCache V → LruCache V × Bool
  delete key c = elim (find key c.entries) [
    | none ↦ (c, false)
    | some e ↦ (
      record c { entries = remove key c.entries; tag_index = discard key e.tags c.tag_index },
      true,
    )
  ]

  unfoldable pub touch : ℕ → CacheEntry V → CacheEntry V
  touch now e = record e { access_count = e.access_count + 1; last_accessed = now }

  unfoldable pub get : ℕ → String → LruCache V → LruCache V × Option V
  unfolding touch
  get now key c =
      let c = record c { total_gets = c.total_gets + 1 } in
      elim (find key c.entries) [
        | none ↦ (record c { misses = c.misses + 1 }, none)
        | some e ↦
            if is_expired now e
            then (let c' = (delete key c).0 in (record c' { misses = c'.misses + 1 }, none))
            else (
              record c {
                entries = move_to_end key (assign key (touch now e) c.entries);
                hits = c.hits + 1;
              },
              some e.value,
            )
      ]

  abbrev pub evict_from : List (CacheEntry V) → LruCache V → LruCache V
  evict_from [] c = c
  evict_from (e ∷ es) c = record c { entries = es; evictions = c.evictions + 1 }

  unfoldable pub evict : LruCache V → LruCache V
  evict c = evict_from c.entries c

  -- The tests of `set` before the entry is made.
  unfoldable pub make_room : String → LruCache V → LruCache V
  unfolding evict
  make_room key c =
      if has key c.entries
      then record c { entries = move_to_end key c.entries }
      else if leb c.max_size (length c.entries)
      then evict c
      else c

  unfoldable pub set : ℕ → String → V → Option ℕ → List String → LruCache V → LruCache V
  set now key value ttl tags c =
      let c = make_room key c in
      let entry : CacheEntry V = record {
        key = key;
        value = value;
        created_at = now;
        ttl_seconds = or_default ttl c.default_ttl;
        access_count = 0;
        last_accessed = now;
        tags = tags;
      } in
      record c {
        entries = assign key entry c.entries;
        total_sets = c.total_sets + 1;
        tag_index = add_tags key tags c.tag_index;
      }

  unfoldable pub delete_each : List String → LruCache V → LruCache V
  delete_each [] c = c
  delete_each (k ∷ ks) c = delete_each ks (delete k c).0

  unfoldable pub invalidate_tag : String → LruCache V → LruCache V × ℕ
  invalidate_tag tag c =
      let keys = keys_of tag c.tag_index in
      let c' = delete_each keys c in
      (record c' { tag_index = drop_tag tag c'.tag_index }, length keys)

  unfoldable pub clear : LruCache V → LruCache V × ℕ
  clear c = (record c { entries = []; tag_index = [] }, length c.entries)

abbrev pub empty : {V : Type 0} → ℕ → ℕ → LruCache V
empty max_size default_ttl = record {
  max_size = max_size;
  default_ttl = default_ttl;
  entries = [];
  tag_index = [];
  hits = 0;
  misses = 0;
  evictions = 0;
  total_sets = 0;
  total_gets = 0;
}
