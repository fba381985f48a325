-- ===== src/Caching/Promotion.antt =====
-- A value that a `MultiLayerCache` has copied from its second layer into its first.
use Prim.Native.String.{String}
use text.Mathlib.Text.{◌==◌ as str_eq}
use text.Mathlib.TextEquality.{eq_iff}
use noema.Prelude.{
  ℕ, ◌+◌, ◌≤◌, ◌≡◌, refl, sym, ap, ◌∙◌, arith, false, inl, inr, Bool-cases, List, [], ◌∷◌, Option,
  none, some, Option-cases, leb, length,
}
use noema.Caching.{
  CacheEntry, LruCache, find, remove, is_expired, delete, delete_each, get, set, make_room,
  is_member, keys_of, invalidate_tag, evict, evict_from, has, add_tags, or_default,
}
use noema.Caching.Lookup.{get-set}
use noema.Caching.Layers.{
  MultiLayerCache, get_layered, from_l2, invalidate_tag_layered, answers-first,
}

module _ {V : Type 0} where
  find-remove-other :
      (key k : String) (es : List (CacheEntry V))
      → str_eq key k ≡ false
      → find key (remove k es) ≡ find key es
  unfolding find remove
  find-remove-other key k [] h = refl
  find-remove-other key k (e ∷ es) h = elim (Bool-cases (str_eq k e.key)) [
    | inl y ↦
        let same : str_eq key e.key ≡ false = ap (str_eq key) (sym ((eq_iff k e.key).0 y)) ∙ h in
        rw (y, same) (find-remove-other key k es h)
    | inr n ↦ elim (Bool-cases (str_eq key e.key)) [
      | inl y ↦ rw (n, find, y) refl
      | inr z ↦ rw (n, find, z) (find-remove-other key k es h)
    ]
  ]

  find-delete-other :
      (key k : String) (c : LruCache V)
      → str_eq key k ≡ false
      → find key (delete k c).0.entries ≡ find key c.entries
  unfolding delete
  find-delete-other key k c h = elim (Option-cases (find k c.entries)) [
    | inl e ↦ rw (delete, e) refl
    | inr (x, e) ↦ rw (delete, e) (find-remove-other key k c.entries h)
  ]

  find-delete_each :
      (key : String) (ks : List String) (c : LruCache V)
      → is_member key ks ≡ false
      → find key (delete_each ks c).entries ≡ find key c.entries
  unfolding delete_each
  find-delete_each key [] c h = refl
  find-delete_each key (k ∷ ks) c h =
      find-delete_each key ks (delete k c).0 (ground (arith, h))
      ∙ find-delete-other key k c (ground (arith, h))

  same_find-same_get :
      (now : ℕ) (key : String) (c c' : LruCache V)
      → find key c.entries ≡ find key c'.entries
      → (get now key c).1 ≡ (get now key c').1
  unfolding get
  same_find-same_get now key c c' h = elim (Option-cases (find key c'.entries)) [
    | inl e ↦ rw (get, h, e) refl
    | inr (x, e) ↦ elim (Bool-cases (is_expired now x)) [
      | inl y ↦ rw (get, h, e, y) refl
      | inr n ↦ rw (get, h, e, n) refl
    ]
  ]

  tag_index-evict_from :
      (es : List (CacheEntry V)) (c : LruCache V) → (evict_from es c).tag_index ≡ c.tag_index
  tag_index-evict_from [] c = refl
  tag_index-evict_from (e ∷ es) c = refl

  tag_index-make_room : (key : String) (c : LruCache V) → (make_room key c).tag_index ≡ c.tag_index
  unfolding make_room evict
  tag_index-make_room key c = elim (Bool-cases (has key c.entries)) [
    | inl y ↦ rw (make_room, y) refl
    | inr n ↦ elim (Bool-cases (leb c.max_size (length c.entries))) [
      | inl y ↦ rw (make_room, n, y) (tag_index-evict_from c.entries c)
      | inr z ↦ rw (make_room, n, z) refl
    ]
  ]

  missed : LruCache V → LruCache V
  missed c = record c { total_gets = c.total_gets + 1; misses = c.misses + 1 }

  get-missed :
      (now : ℕ) (key : String) (c : LruCache V)
      → find key c.entries ≡ none
      → get now key c ≡ (missed c, none)
  unfolding get missed
  get-missed now key c h = rw (get, h) refl

  l1-from_l2 :
      (now : ℕ) (key : String) (l1 : LruCache V) (r : LruCache V × Option V) (v : V)
      → r.1 ≡ some v
      → (from_l2 now key l1 r).0.l1 ≡ set now key v (some 60) [] l1
  unfolding from_l2
  l1-from_l2 now key l1 (l2, none) v e = absurd cc
  l1-from_l2 now key l1 (l2, some w) v e =
      let same : w ≡ v = cc in ap (λ x. set now key x (some 60) [] l1) same

  promoted :
      (now : ℕ) (key : String) (m : MultiLayerCache V) (v : V)
      → find key m.l1.entries ≡ none
      → (get now key m.l2).1 ≡ some v
      → (get_layered now key m).0.l1 ≡ set now key v (some 60) [] (missed m.l1)
  unfolding get_layered
  promoted now key m v absent found =
      rw (get_layered, get-missed now key m.l1 absent)
        (l1-from_l2 now key (missed m.l1) (get now key m.l2) v found)

  -- Let the first layer lack a key, and its tag index not list the key under a tag; let the second
  -- layer hold a value for it. After a lookup, which copies the value, and an invalidation of the
  -- tag, lookups within 60 seconds still find the value, whatever tags it was stored with.
  pub promotion-survives-invalidate_tag :
      (now later : ℕ) (key tag : String) (m : MultiLayerCache V) (v : V)
      → find key m.l1.entries ≡ none
      → is_member key (keys_of tag m.l1.tag_index) ≡ false
      → (get now key m.l2).1 ≡ some v
      → later ≤ now + 60
      → (get_layered later key (invalidate_tag_layered tag (get_layered now key m).0).0).1 ≡ some v
  unfolding invalidate_tag_layered invalidate_tag set add_tags missed or_default
  promotion-survives-invalidate_tag now later key tag m v absent unlisted found early =
      let filled = promoted now key m v absent found in
      let index = ap (λ c. c.tag_index) filled ∙ tag_index-make_room key (missed m.l1) in
      let skipped = ap (λ i. is_member key (keys_of tag i)) index ∙ unlisted in
      let l1 = (get_layered now key m).0.l1 in
      let kept = find-delete_each key (keys_of tag l1.tag_index) l1 skipped in
      let answer =
        same_find-same_get later key (invalidate_tag tag l1).0 l1 kept
        ∙ ap (λ c. (get later key c).1) filled in
      elim (get-set now later key v (some 60) [] (missed m.l1)) [
        | inl (_, hit) ↦
            answers-first later key (invalidate_tag_layered tag (get_layered now key m).0).0 v
              (answer ∙ hit)
        | inr (late, _) ↦ absurd (ground (arith, late, early))
      ]
