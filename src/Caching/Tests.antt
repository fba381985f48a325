-- ===== src/Caching/Tests.antt =====
-- Caches of noema/modules/caching/kernel.py at work.
use noema.Prelude.{ℕ, ◌≤◌, ◌≡◌, refl, arith, [], ◌∷◌, none, some, length}
use noema.Caching.{LruCache, CacheEntry, find, delete, get, empty, or_default, is_expired, keys_of}
use noema.Caching.Bounds.{Op, run, length-run-le-max_size}
use noema.Caching.Lookup.{get-delete}
use noema.Caching.Layers.{
  MultiLayerCache, get_layered, set_layered, invalidate_tag_layered, get_layered-set_layered,
}
use noema.Caching.Promotion.{promotion-survives-invalidate_tag}

abbrev entry : CacheEntry ℕ
entry = record {
  key = "a";
  value = 7;
  created_at = 0;
  ttl_seconds = 3600;
  access_count = 0;
  last_accessed = 0;
  tags = "t" ∷ [];
}

-- One entry, under the tag "t".
abbrev one : LruCache ℕ
one = record (empty 2 3600) { entries = entry ∷ []; tag_index = ("t", "a" ∷ []) ∷ [] }

-- The entry is in the second layer only.
abbrev layered : MultiLayerCache ℕ
layered = record { l1 = empty 2 60; l2 = one }

length-run-le-max_size_example :
    length
      (run {V = ℕ}
        (Op.op_set 0 "a" 1 none []
          ∷ Op.op_set 1 "b" 2 none ("t" ∷ [])
          ∷ Op.op_get 2 "a"
          ∷ Op.op_set 3 "c" 3 none []
          ∷ [])
        (empty 2 60)).entries
    ≤ 2
length-run-le-max_size_example = length-run-le-max_size 2 60 _ (omega arith)

get-delete_example : (get 10 "a" (delete "a" one).0).1 ≡ none
get-delete_example = get-delete 10 "a" one

get_layered-set_layered_example :
    (get_layered 1000 "b" (set_layered 0 "b" 9 none [] layered)).1 ≡ some 9
get_layered-set_layered_example =
    get_layered-set_layered 0 1000 "b" 9 none [] layered (unfold or_default in omega arith)

promotion-survives-invalidate_tag_example :
    (get_layered 30 "a" (invalidate_tag_layered "t" (get_layered 10 "a" layered).0).0).1 ≡ some 7
unfolding find get keys_of is_expired
promotion-survives-invalidate_tag_example =
    promotion-survives-invalidate_tag 10 30 "a" "t" layered 7 refl refl refl (omega arith)
